-- ===== src/Session/Oversized.antt =====
-- A session whose result is too long for a control message.
use andri.Common.{ℕ, ◌≡◌, ◌<◌, ◌∙◌, refl, List, ◌++◌, length}
use andri.Io.{ok, err}
use andri.Proto.Messages.{Hello, Negotiate, TestResult, Msg, protocol_version, max_frame_bytes}
use andri.Proto.Stream.{Stream, IsByteStream, Codec}
use andri.Proto.Frame.{frame, exceeds_cap}
use andri.Proto.RoundTrip.{write_msg_oversized}
use andri.Proto.Sequence.{IsSendable, read_sendable}
use andri.Session.DataPath.{ServerSide}
use andri.Session.Server.{welcome_for, bind, measure, on_run, serve_session}
use andri.Session.ServerLaws.{start_at, on_negotiate_lem, on_hello_lem, serve_session-read}

module _ {F : Type 0} (codec : Codec F) (st : Stream) (up : IsByteStream st)
    (side : ServerSide F) where
  open up use {pending, written}

  on_run_oversized :
      (neg : Negotiate) (r : TestResult F) (last : Msg F) (rest text : List ℕ) (s : st.S)
      (gl : IsSendable codec last)
      → codec.to_vec (Msg.result r) ≡ ok text
      → max_frame_bytes < length text
      → measure codec st side neg neg.mode ≡ ok r
      → pending s ≡ frame gl.payload ++ rest
      → (s' : st.S) × (on_run codec st side neg Msg.run s ≡ (err exceeds_cap, s'))
        × (pending s' ≡ rest)
        × (written s' ≡ written s)
  unfolding on_run
  on_run_oversized neg r last rest text s gl encoded long measured front =
      let l = read_sendable codec st up last gl rest s front in
      let w = write_msg_oversized codec st up (Msg.result r) text l.0 encoded long in
      (l.0, rw (measured, l.1) w, l.2, l.3)

  -- A measurement that succeeds, with a result whose JSON is longer than the cap, as its samples
  -- make it in a long test: the session fails after `Start`, and the client, which has sent
  -- everything that the protocol asks for, gets neither the result nor an error message.
  pub serve_session_oversized :
      (h : Hello) (neg : Negotiate) (last : Msg F) (port : ℕ) (r : TestResult F)
      (rest text : List ℕ) (s : st.S) (gh : IsSendable codec (Msg.hello h))
      (gn : IsSendable codec (Msg.negotiate neg)) (gr : IsSendable codec Msg.run)
      (gl : IsSendable codec last) (gw : IsSendable codec (Msg.welcome (welcome_for codec st h)))
      (gs : IsSendable codec (start_at codec st up side port))
      → codec.to_vec (Msg.result r) ≡ ok text
      → max_frame_bytes < length text
      → h.protocol_version ≡ protocol_version
      → bind codec st side neg.mode ≡ ok port
      → measure codec st side neg neg.mode ≡ ok r
      → pending s
        ≡ frame gh.payload ++ (frame gn.payload ++ (frame gr.payload ++ (frame gl.payload ++ rest)))
      → (s' : st.S) × (serve_session codec st side s ≡ (err exceeds_cap, s'))
        × (pending s' ≡ rest)
        × (written s' ≡ (written s ++ frame gw.payload) ++ frame gs.payload)
  serve_session_oversized h neg last port r rest text s gh gn gr gl gw gs encoded long same bound
        measured front =
      let a = serve_session-read codec st up side (Msg.hello h) _ s gh front in
      let b = on_hello_lem codec st up side h (Msg.negotiate neg) _ a.0 gw gn same a.2 in
      let c = on_negotiate_lem codec st up side neg port Msg.run _ b.0 gs gr bound b.2 in
      let d = on_run_oversized neg r last rest text c.0 gl encoded long measured c.2 in
      (d.0, a.1 ∙ b.1 ∙ c.1 ∙ d.1, d.2, rw (d.3, c.3, b.3, a.3) refl)
