-- ===== src/Session/Handshake.antt =====
-- Whole sessions of the server: accepted, and refused at each message.
use andri.Common.{ℕ, ◌≡◌, ◌≢◌, refl, ◌∙◌, List, ◌++◌, Bool, true, false, ◌==◌, arith}
use andri.Io.{IoResult, ok, err}
use andri.Proto.Messages.{Hello, Negotiate, TestResult, ProtoError, Msg, protocol_version}
use andri.Proto.Stream.{Stream, IsByteStream, Codec}
use andri.Proto.Frame.{frame}
use andri.Proto.Sequence.{IsSendable, write_sendable}
use andri.Session.DataPath.{ServerSide}
use andri.Session.Server.{
  rejected, welcome_for, bind, measure, on_run, on_negotiate, on_hello, serve_session,
}
use andri.Session.ServerLaws.{
  start_at, reject_lem, on_run_lem, on_negotiate_lem, on_hello_lem, serve_session-read,
}

module _ {F : Type 0} (codec : Codec F) (st : Stream) (up : IsByteStream st)
    (side : ServerSide F) where
  open up use {pending, written}

  -- A client of the same version that sends `Hello`, `Negotiate`, `Run` and one more message gets
  -- `Welcome` with its own nonce, `Start` with the bound port, and the measured result, in this
  -- order and nothing else; the session ends well and what follows is left unread.
  pub serve_session_accepts :
      (h : Hello) (neg : Negotiate) (last : Msg F) (port : ℕ) (r : TestResult F) (rest : List ℕ)
      (s : st.S) (gh : IsSendable codec (Msg.hello h)) (gn : IsSendable codec (Msg.negotiate neg))
      (gr : IsSendable codec Msg.run) (gl : IsSendable codec last)
      (gw : IsSendable codec (Msg.welcome (welcome_for codec st h)))
      (gs : IsSendable codec (start_at codec st up side port))
      (gt : IsSendable codec (Msg.result r))
      → h.protocol_version ≡ protocol_version
      → bind codec st side neg.mode ≡ ok port
      → measure codec st side neg neg.mode ≡ ok r
      → pending s
        ≡ frame gh.payload ++ (frame gn.payload ++ (frame gr.payload ++ (frame gl.payload ++ rest)))
      → (s' : st.S) × (serve_session codec st side s ≡ (ok tt, s'))
        × (pending s' ≡ rest)
        × (written s' ≡ ((written s ++ frame gw.payload) ++ frame gs.payload) ++ frame gt.payload)
  serve_session_accepts h neg last port r rest s gh gn gr gl gw gs gt same bound measured front =
      let a = serve_session-read codec st up side (Msg.hello h) _ s gh front in
      let b = on_hello_lem codec st up side h (Msg.negotiate neg) _ a.0 gw gn same a.2 in
      let c = on_negotiate_lem codec st up side neg port Msg.run _ b.0 gs gr bound b.2 in
      let d = on_run_lem codec st up side neg r last rest c.0 gt gl measured c.2 in
      (d.0, a.1 ∙ b.1 ∙ c.1 ∙ d.1, d.2, rw (d.3, c.3, b.3, a.3) refl)

  -- A client of another version gets `Welcome` with `accepted` false and its nonce, then the error
  -- `VersionMismatch`, and the session ends with that error; no more is read.
  pub serve_session_mismatch :
      (h : Hello) (rest : List ℕ) (s : st.S) (gh : IsSendable codec (Msg.hello h))
      (gw : IsSendable codec (Msg.welcome (welcome_for codec st h)))
      (ge : IsSendable codec (Msg.error ProtoError.version_mismatch))
      → h.protocol_version ≢ protocol_version
      → pending s ≡ frame gh.payload ++ rest
      → (s' : st.S) × (serve_session codec st side s
          ≡ (err (rejected ProtoError.version_mismatch), s'))
        × ((welcome_for codec st h).accepted ≡ false)
        × (pending s' ≡ rest)
        × (written s' ≡ (written s ++ frame gw.payload) ++ frame ge.payload)
  unfolding on_hello
  serve_session_mismatch h rest s gh gw ge other front =
      let a = serve_session-read codec st up side (Msg.hello h) rest s gh front in
      let w = write_sendable codec st up (Msg.welcome (welcome_for codec st h)) gw a.0 in
      let e = reject_lem codec st up side ProtoError.version_mismatch ge w.0 in
      let differs : (h.protocol_version == 1) ≡ false = ground arith in
      (e.0, a.1 ∙ rw (w.1, differs) e.1, differs, e.2 ∙ w.2 ∙ a.2, rw (e.3, w.3, a.3) refl)

  -- The states in which the server waits for a message.
  pub data Stage : Type 0 where
    greeting negotiating : Stage
    connecting : Negotiate → Stage

  abbrev pub expects : Stage → Msg F → Bool
  expects greeting (Msg.hello h) = true
  expects negotiating (Msg.negotiate neg) = true
  expects (connecting neg) Msg.run = true
  expects _ _ = false

  abbrev pub handle : Stage → Msg F → st.S → IoResult (Unit {0}) × st.S
  handle greeting m = on_hello codec st side m
  handle negotiating m = on_negotiate codec st side m
  handle (connecting neg) m = on_run codec st side neg m

  -- In each state every message but the expected one is answered by the error
  -- `UnexpectedMessage` alone, and ends the session with that error; nothing more is read.
  pub handle_unexpected :
      (stage : Stage) (m : Msg F) (s : st.S)
      (ge : IsSendable codec (Msg.error ProtoError.unexpected_message))
      → expects stage m ≡ false
      → (s' : st.S) × (handle stage m s ≡ (err (rejected ProtoError.unexpected_message), s'))
        × (pending s' ≡ pending s)
        × (written s' ≡ written s ++ frame ge.payload)
  unfolding on_hello on_negotiate on_run
  handle_unexpected greeting (Msg.hello h) s ge e = cc
  handle_unexpected greeting _ s ge e =
      reject_lem codec st up side ProtoError.unexpected_message ge s
  handle_unexpected negotiating (Msg.negotiate neg) s ge e = cc
  handle_unexpected negotiating _ s ge e =
      reject_lem codec st up side ProtoError.unexpected_message ge s
  handle_unexpected (connecting neg) Msg.run s ge e = cc
  handle_unexpected (connecting neg) _ s ge e =
      reject_lem codec st up side ProtoError.unexpected_message ge s
