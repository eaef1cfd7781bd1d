-- ===== src/Session/ClientLaws.antt =====
-- The client's side of a session over a connection that stays up.
use andri.Common.{ℕ, ◌≡◌, refl, ◌∙◌, List, ◌++◌, true, not, ◌||◌, ◌==◌}
use andri.Io.{ok, err}
use andri.Cli
use andri.Cli.{ClientOpts}
use andri.Proto.Messages.{Hello, Welcome, Negotiate, Start, TestResult, Msg, protocol_version}
use andri.Proto.Stream.{Stream, IsByteStream, Codec}
use andri.Proto.Frame.{frame}
use andri.Proto.Sequence.{IsSendable, write_sendable, read_sendable}
use andri.Session.DataPath.{ClientSide}
use andri.Session.Server.{version}
use andri.Session.Client.{
  client_nonce, failure, Plan, negotiate_for, drive, on_start, on_welcome, client_session,
}

abbrev pub client_hello : Hello
client_hello = record {
  protocol_version = protocol_version;
  client_version = version;
  nonce = client_nonce;
}

module _ {F : Type 0} (codec : Codec F) (st : Stream) (up : IsByteStream st) (side : ClientSide)
    (opts : ClientOpts) where
  open up use {pending, written}

  on_start_lem :
      (mode : Cli.Mode) (neg : Negotiate) (start : Start) (r : TestResult F) (rest : List ℕ)
      (s : st.S) (gr : IsSendable codec Msg.run) (gp : IsSendable codec Msg.stop)
      (gt : IsSendable codec (Msg.result r))
      → drive codec st side opts mode start neg ≡ ok tt
      → pending s ≡ frame gt.payload ++ rest
      → (s' : st.S) × (on_start codec st side opts mode neg (Msg.start start) s ≡ (ok r, s'))
        × (pending s' ≡ rest)
        × (written s' ≡ (written s ++ frame gr.payload) ++ frame gp.payload)
  unfolding on_start
  on_start_lem mode neg start r rest s gr gp gt driven front =
      let a = write_sendable codec st up Msg.run gr s in
      let b = write_sendable codec st up Msg.stop gp a.0 in
      let c = read_sendable codec st up (Msg.result r) gt rest b.0 (b.2 ∙ a.2 ∙ front) in
      (c.0, rw (a.1, driven, b.1, c.1) refl, c.2, rw (c.3, b.3, a.3) refl)

  -- A server that accepts the version and echoes the nonce, then sends `Start` and `Result`, gets
  -- `Hello`, `Negotiate` for the chosen mode, `Run` and `Stop` in this order and nothing else; if
  -- the data path succeeds the client ends with exactly that result.
  pub client_session_accepted :
      (p : Plan) (w : Welcome) (start : Start) (r : TestResult F) (rest : List ℕ) (s : st.S)
      (gh : IsSendable codec (Msg.hello client_hello))
      (gn : IsSendable codec (Msg.negotiate (negotiate_for opts p))) (gr : IsSendable codec Msg.run)
      (gp : IsSendable codec Msg.stop) (gw : IsSendable codec (Msg.welcome w))
      (gs : IsSendable codec (Msg.start start)) (gt : IsSendable codec (Msg.result r))
      → w.accepted ≡ true
      → w.nonce ≡ client_nonce
      → drive codec st side opts p.mode start (negotiate_for opts p) ≡ ok tt
      → pending s ≡ frame gw.payload ++ (frame gs.payload ++ (frame gt.payload ++ rest))
      → (s' : st.S) × (client_session codec st side opts p s ≡ (ok r, s'))
        × (pending s' ≡ rest)
        × (written s'
            ≡ (((written s ++ frame gh.payload) ++ frame gn.payload) ++ frame gr.payload)
              ++ frame gp.payload)
  unfolding client_session on_welcome
  client_session_accepted p w start r rest s gh gn gr gp gw gs gt accepted nonce driven front =
      let neg = negotiate_for opts p in
      let a = write_sendable codec st up (Msg.hello client_hello) gh s in
      let b = read_sendable codec st up (Msg.welcome w) gw _ a.0 (a.2 ∙ front) in
      let c = write_sendable codec st up (Msg.negotiate neg) gn b.0 in
      let d = read_sendable codec st up (Msg.start start) gs _ c.0 (c.2 ∙ b.2) in
      let e = on_start_lem p.mode neg start r rest d.0 gr gp gt driven d.2 in
      (e.0, rw (a.1, b.1, accepted, nonce, c.1, d.1) e.1, e.2, rw (e.3, d.3, c.3, b.3, a.3) refl)

  -- A server that does not accept, or echoes another nonce, has got `Hello` alone when the client
  -- gives up; nothing after its `Welcome` is read.
  pub client_session_refused :
      (p : Plan) (w : Welcome) (rest : List ℕ) (s : st.S)
      (gh : IsSendable codec (Msg.hello client_hello)) (gw : IsSendable codec (Msg.welcome w))
      → (not w.accepted || not (w.nonce == client_nonce)) ≡ true
      → pending s ≡ frame gw.payload ++ rest
      → (s' : st.S) × (client_session codec st side opts p s
          ≡ (err (failure "server rejected handshake"), s'))
        × (pending s' ≡ rest)
        × (written s' ≡ written s ++ frame gh.payload)
  unfolding client_session on_welcome
  client_session_refused p w rest s gh gw refused front =
      let a = write_sendable codec st up (Msg.hello client_hello) gh s in
      let b = read_sendable codec st up (Msg.welcome w) gw rest a.0 (a.2 ∙ front) in
      (b.0, rw (a.1, b.1, refused) refl, b.2, b.3 ∙ a.3)
