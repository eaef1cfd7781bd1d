-- ===== src/Session/Dialogue.antt =====
-- Both ends of one session, each running on what the other sends.
use andri.Common.{ℕ, ◌≡◌, refl, sym, ap, ◌∙◌, [], ◌++◌}
use mathlib.Core.List.{append_assoc, append-nil}
use andri.Io.{IoResult, ok}
use andri.Cli.{ClientOpts}
use andri.Proto.Messages.{TestResult, Msg}
use andri.Proto.Stream.{Stream, IsByteStream, Codec}
use andri.Proto.Frame.{frame}
use andri.Proto.Sequence.{IsSendable}
use andri.Session.DataPath.{ServerSide, ClientSide}
use andri.Session.Server.{server_seed, welcome_for, bind, measure, serve_session}
use andri.Session.ServerLaws.{start_at}
use andri.Session.Handshake.{serve_session_accepts}
use andri.Session.Client.{Plan, negotiate_for, drive, client_session}
use andri.Session.ClientLaws.{client_hello, client_session_accepted}

ruleset concatenation = (append_assoc, append-nil)

module _ {F : Type 0} (codec : Codec F) (st : Stream) (up : IsByteStream st) (server : ServerSide F)
    (client : ClientSide) (opts : ClientOpts) where
  open up use {pending, written}

  -- On one side stand `Hello`, `Negotiate`, `Run` and `Stop`, on the other `Welcome`, `Start` and
  -- `Result`: if the data path succeeds at both ends, the server given the first and the client
  -- given the second both end well, the client with the server's result, and each has sent exactly
  -- what the other one was given.
  pub dialogue :
      (p : Plan) (port : ℕ) (r : TestResult F) (s c : st.S)
      (gh : IsSendable codec (Msg.hello client_hello))
      (gn : IsSendable codec (Msg.negotiate (negotiate_for opts p))) (gr : IsSendable codec Msg.run)
      (gp : IsSendable codec Msg.stop)
      (gw : IsSendable codec (Msg.welcome (welcome_for codec st client_hello)))
      (gs : IsSendable codec (start_at codec st up server port))
      (gt : IsSendable codec (Msg.result r))
      → bind codec st server (negotiate_for opts p).mode ≡ ok port
      → measure codec st server (negotiate_for opts p) (negotiate_for opts p).mode ≡ ok r
      → drive codec st client opts p.mode
          (record { data_port = port; server_seed = server_seed })
          (negotiate_for opts p)
        ≡ ok tt
      → pending s ≡ frame gh.payload ++ (frame gn.payload ++ (frame gr.payload ++ frame gp.payload))
      → pending c ≡ frame gw.payload ++ (frame gs.payload ++ frame gt.payload)
      → written s ≡ []
      → written c ≡ []
      → (s' c' : st.S) × (serve_session codec st server s ≡ (ok tt, s'))
        × (client_session codec st client opts p c ≡ (ok r, c'))
        × (written s' ≡ pending c)
        × (written c' ≡ pending s)
  dialogue p port r s c gh gn gr gp gw gs gt bound measured driven to_server to_client es ec =
      let neg = negotiate_for opts p in
      let a =
        serve_session_accepts codec st up server client_hello neg Msg.stop port r [] s gh gn gr gp
          gw gs gt refl bound measured (to_server ∙ simp concatenation) in
      let b =
        client_session_accepted codec st up client opts p (welcome_for codec st client_hello)
          (record { data_port = port; server_seed = server_seed }) r [] c gh gn gr gp gw gs gt refl
          refl driven (to_client ∙ simp concatenation) in
      (
        a.0,
        b.0,
        a.1,
        b.1,
        a.3 ∙ rw (es, to_client) (simp concatenation),
        b.3 ∙ rw (ec, to_server) (simp concatenation),
      )

  -- The client reads what the server has sent, whatever that is: given the four messages of a client
  -- the server ends well, the client on the server's bytes ends with the server's result, and what it
  -- has sent are the four messages that the server was given.
  pub exchange :
      (p : Plan) (port : ℕ) (r : TestResult F) (s c s' : st.S) (o : IoResult (Unit {0}))
      (gh : IsSendable codec (Msg.hello client_hello))
      (gn : IsSendable codec (Msg.negotiate (negotiate_for opts p))) (gr : IsSendable codec Msg.run)
      (gp : IsSendable codec Msg.stop)
      (gw : IsSendable codec (Msg.welcome (welcome_for codec st client_hello)))
      (gs : IsSendable codec (start_at codec st up server port))
      (gt : IsSendable codec (Msg.result r))
      → bind codec st server (negotiate_for opts p).mode ≡ ok port
      → measure codec st server (negotiate_for opts p) (negotiate_for opts p).mode ≡ ok r
      → drive codec st client opts p.mode
          (record { data_port = port; server_seed = server_seed })
          (negotiate_for opts p)
        ≡ ok tt
      → pending s ≡ frame gh.payload ++ (frame gn.payload ++ (frame gr.payload ++ frame gp.payload))
      → written s ≡ []
      → written c ≡ []
      → serve_session codec st server s ≡ (o, s')
      → pending c ≡ written s'
      → (c' : st.S) × (o ≡ ok tt)
        × (client_session codec st client opts p c ≡ (ok r, c'))
        × (written c' ≡ pending s)
  exchange p port r s c s' o gh gn gr gp gw gs gt bound measured driven to_server es ec served
        heard =
      let neg = negotiate_for opts p in
      let a =
        serve_session_accepts codec st up server client_hello neg Msg.stop port r [] s gh gn gr gp
          gw gs gt refl bound measured (to_server ∙ simp concatenation) in
      let end : Path (IoResult (Unit {0}) × st.S) (o, s') (ok tt, a.0) = sym served ∙ a.1 in
      let sent : written s' ≡ frame gw.payload ++ (frame gs.payload ++ frame gt.payload) =
        ap (λ x. written x.1) end ∙ a.3 ∙ rw es (simp concatenation) in
      let d =
        dialogue p port r s c gh gn gr gp gw gs gt bound measured driven to_server (heard ∙ sent) es
          ec in
      (d.1, ap (λ x. x.0) end, d.3, d.5)
