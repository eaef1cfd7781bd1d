-- ===== src/Session/ServerLaws.antt =====
-- The server's side of a session over a connection that stays up: what it answers to what it
-- reads. `front ++ rest` is what the client has sent; the bytes sent are given frame by frame.
use andri.Common.{ℕ, ◌≡◌, refl, ap, ◌∙◌, List, ◌++◌, true, ◌==◌, arith}
use andri.Io.{ok, err}
use andri.Proto.Messages.{Hello, Negotiate, TestResult, ProtoError, Msg, protocol_version}
use andri.Proto.Stream.{Stream, IsByteStream, Codec}
use andri.Proto.Frame.{frame}
use andri.Proto.Sequence.{IsSendable, write_sendable, read_sendable}
use andri.Session.DataPath.{ServerSide}
use andri.Session.Server.{
  server_seed, rejected, reject, welcome_for, bind, measure, on_run, on_negotiate, on_hello,
  serve_session,
}

module _ {F : Type 0} (codec : Codec F) (st : Stream) (up : IsByteStream st)
    (side : ServerSide F) where
  open up use {pending, written}

  abbrev pub start_at : ℕ → Msg F
  start_at port = Msg.start (record { data_port = port; server_seed = server_seed })

  pub reject_lem :
      (e : ProtoError) (g : IsSendable codec (Msg.error e)) (s : st.S)
      → (s' : st.S) × (reject codec st {A = Unit {0}} e s ≡ (err (rejected e), s'))
        × (pending s' ≡ pending s)
        × (written s' ≡ written s ++ frame g.payload)
  unfolding reject
  reject_lem e g s = let w = write_sendable codec st up (Msg.error e) g s in (w.0, rw w.1, w.2, w.3)

  pub on_run_lem :
      (neg : Negotiate) (r : TestResult F) (last : Msg F) (rest : List ℕ) (s : st.S)
      (gr : IsSendable codec (Msg.result r)) (gl : IsSendable codec last)
      → measure codec st side neg neg.mode ≡ ok r
      → pending s ≡ frame gl.payload ++ rest
      → (s' : st.S) × (on_run codec st side neg Msg.run s ≡ (ok tt, s'))
        × (pending s' ≡ rest)
        × (written s' ≡ written s ++ frame gr.payload)
  unfolding on_run
  on_run_lem neg r last rest s gr gl measured front =
      let l = read_sendable codec st up last gl rest s front in
      let w = write_sendable codec st up (Msg.result r) gr l.0 in
      (w.0, rw (measured, l.1) w.1, w.2 ∙ l.2, w.3 ∙ ap (λ (x : List ℕ). x ++ frame gr.payload) l.3)

  pub on_negotiate_lem :
      (neg : Negotiate) (port : ℕ) (next : Msg F) (rest : List ℕ) (s : st.S)
      (gs : IsSendable codec (start_at port)) (gn : IsSendable codec next)
      → bind codec st side neg.mode ≡ ok port
      → pending s ≡ frame gn.payload ++ rest
      → (s' : st.S) × (on_negotiate codec st side (Msg.negotiate neg) s
          ≡ on_run codec st side neg next s')
        × (pending s' ≡ rest)
        × (written s' ≡ written s ++ frame gs.payload)
  unfolding on_negotiate
  on_negotiate_lem neg port next rest s gs gn bound front =
      let w = write_sendable codec st up (start_at port) gs s in
      let n = read_sendable codec st up next gn rest w.0 (w.2 ∙ front) in
      (n.0, rw (bound, w.1, n.1) refl, n.2, n.3 ∙ w.3)

  pub on_hello_lem :
      (h : Hello) (next : Msg F) (rest : List ℕ) (s : st.S)
      (gw : IsSendable codec (Msg.welcome (welcome_for codec st h))) (gn : IsSendable codec next)
      → h.protocol_version ≡ protocol_version
      → pending s ≡ frame gn.payload ++ rest
      → (s' : st.S) × (on_hello codec st side (Msg.hello h) s ≡ on_negotiate codec st side next s')
        × (pending s' ≡ rest)
        × (written s' ≡ written s ++ frame gw.payload)
  unfolding on_hello
  on_hello_lem h next rest s gw gn same front =
      let w = write_sendable codec st up (Msg.welcome (welcome_for codec st h)) gw s in
      let n = read_sendable codec st up next gn rest w.0 (w.2 ∙ front) in
      let accepted : (h.protocol_version == 1) ≡ true = ground arith in
      (n.0, rw (w.1, accepted, n.1) refl, n.2, n.3 ∙ w.3)

  pub serve_session-read :
      (first : Msg F) (rest : List ℕ) (s : st.S) (g : IsSendable codec first)
      → pending s ≡ frame g.payload ++ rest
      → (s' : st.S) × (serve_session codec st side s ≡ on_hello codec st side first s')
        × (pending s' ≡ rest)
        × (written s' ≡ written s)
  unfolding serve_session
  serve_session-read first rest s g front =
      let r = read_sendable codec st up first g rest s front in (r.0, rw r.1 refl, r.2, r.3)
