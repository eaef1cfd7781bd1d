-- ===== src/Lib.antt =====
-- A verification of andri, a LAN speed tester: a client and a server that measure TCP and UDP
-- throughput and file transfer.
--
-- The program. `main.rs` parses the command line (src/cli.rs) and runs the server or the client of
-- src/session.rs. The two ends exchange framed JSON messages (src/proto.rs) on a control
-- connection: Hello, Welcome, Negotiate, Start, Run, Stop, Result. In between the session calls
-- one data path of src/modes (tcp.rs, udp.rs, file.rs), whose byte counters, payload generator and
-- time series are those of src/meter.rs.
--
-- The files.
--   Proto: src/proto.rs. Messages has its types; Frame has `write_msg` and `read_msg` over the byte
--     stream and the JSON codec of Stream; RoundTrip and Sequence have their laws; Memory is a
--     connection in memory, which runs them. Replay here, in Udp, Meter and Cli has the source's
--     own tests.
--   Session: src/session.rs. Server has `serve_session` and `reject`, one function for each state
--     of the handshake; Client has `connect` in the same way, from its checks (`plan`) to the
--     result, and Print adds what it prints; Accept has the loop `serve`. DataPath is what both ends
--     take from the modes. ServerLaws, Handshake, Oversized, ClientLaws and Dialogue are about
--     sessions of known messages, Transcript, Safety and ClientSafety about one end with any other.
--     Proc has both ends again as processes that send and receive, which ProcLaws relates to the
--     functions, and Network runs the two side by side, in any order of moves, with data paths that
--     may not return. Lossless, Transfer and Streams put the UDP, the file and the TCP data path into
--     a session. Sample has data for the runs.
--   Udp: src/modes/udp.rs. Header has `stamp` and `unstamp`; LossJitter has the accumulator of that
--     name (`observe`, `snapshot`, `into_result`), Serve the loop around `tokio::select!`, Drive
--     the paced sender. Window, Step, Counts, Missing, Loss, Jitter, Clock, Steady and Order
--     are about the accumulator, ServeLaws and Report about the receiver, Pacing, Sender,
--     Finish and Rate about the sender, Tally, Delivery, Balance and EndToEnd about both together.
--   File: src/modes/file.rs. Serve has `serve` and `sample_until_done`, Drive has `drive`,
--     Progress the lines that its closure `report` prints; ServeLaws and Stall are about the
--     receiver, DriveLaws, DiskLaws, Content and ProgressLaws about the sender, EndToEnd about both
--     together.
--   Tcp: src/modes/tcp.rs. Serve has `serve` and `recv_loop`, Drive has `drive`, `send_loop`
--     and the seeds of the streams; ServeLaws, Bounded and Report are about the receiver, DriveLaws
--     and DriveEnd about the sender, EndToEnd about both together.
--   Meter: src/meter.rs. Counter, Fill (`fill_random`), Sampler (`run_sampler`) and Preview
--     (`payload_preview`), with the laws in FillLaws and SamplerLaws; Readout has the lines that
--     `run_sampler` prints, ReadoutLaws is about them.
--   Cli: src/cli.rs, the options and `ModeFlags::selected`; Bitrate has `parse_bitrate` and
--     BitrateLaws is about it, Show has `Format::render` and the names of the modes.
--   Main: src/main.rs.
--   Common, Io, Bytes, Float: lists and machine words on native numbers, `io::Result`, the byte
--     order functions, and the interface of f64. FloatModel has instances for examples: whole
--     numbers, fixed point and, in Rational, fractions.
--
-- The model. Integers are native numbers with the wrap-around written out, as the release profile
-- compiles them; `usize` has 64 bits. What is outside of src/ is a parameter: the byte stream,
-- serde_json, f64 with its parsing and printing, `str::trim`, and at each step of a
-- loop what the operating system answers, with the readings of the monotonic clock in nanoseconds.
-- A loop is a recursion over the list of these answers, as
-- long as the environment provides them: no fuel is chosen, and a loop that is still waiting when
-- the list ends has a result of its own (`none`, `running`, `waiting`). Tasks that run side by side
-- meet in the byte counters only: the TCP receiver takes their steps in the order of one list, and
-- elsewhere what a task reads of a counter is in the list that it is given.
--
-- Not modelled: the readouts on stderr of a UDP test and on the receiver of a file, which only
-- print what the samples have; setting up sockets, of which only the answers enter; and the
-- parsing of options by clap, whose outcome `Cli` is.
mod Common
pub mod Io
pub mod Bytes
pub mod Float
mod FloatModel
pub mod Proto
pub mod Meter
pub mod Udp
pub mod Cli
pub mod Session
pub mod File
pub mod Tcp
pub mod Main
