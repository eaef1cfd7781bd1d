-- ===== src/Session/DataPath.antt =====
-- What a session takes from the modes and from the operating system: the outcome of each call, for
-- calls that complete. The modes are those of src/modes; the rest is tokio.
use andri.Common.{ℕ, Option, Bool, String}
use andri.Io.{IoResult}
use andri.Proto.Messages.{Negotiate, Start, TestResult}

-- Binding a data listener or socket gives its port.
pub record ServerSide (F : Type 0) : Type 0 where
  pub tcp_bind : IoResult ℕ
  pub udp_bind : IoResult ℕ
  pub tcp_serve : Negotiate → IoResult (TestResult F)
  pub udp_serve : Negotiate → IoResult (TestResult F)
  pub file_serve : Negotiate → IoResult (TestResult F)

pub record ClientSide : Type 0 where
  pub file_len : String → IoResult ℕ
  pub tcp_drive : Start → Negotiate → IoResult (Unit {0})
  pub udp_drive : Start → Negotiate → IoResult (Unit {0})
  pub file_drive : Start → Negotiate → Option String → Bool → IoResult (Unit {0})
