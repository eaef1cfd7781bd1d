-- ===== src/Session/ProcLaws.antt =====
-- The processes of a session are what `serve_session` and `connect` of src/session.rs do.
use andri.Common.{
  ◌≡◌, refl, ap, Bool-cases, inl, inr, ltb, length, ℕ, List, Bool, true, false, not, ◌||◌, ◌==◌,
  if◌then◌else◌,
}
use andri.Io.{IoError, IoResult, Io, ok, err, on_ok, ◌>>=◌, ◌>>◌, throw}
use andri.Cli
use andri.Cli.{ClientOpts}
use andri.Proto.Messages.{Negotiate, Msg, ProtoError, protocol_version, max_frame_bytes}
use andri.Proto.Stream.{Stream, Codec}
use andri.Proto.Frame.{write_msg, read_msg}
use andri.Session.DataPath.{ServerSide, ClientSide}
use andri.Session.Server
use andri.Session.Server.{reject, on_run, on_negotiate, on_hello, serve_session}
use andri.Session.Client.{
  Plan, negotiate_for, on_result, on_start, on_welcome, client_session, failure,
}
use andri.Session.Proc.{
  Proc, interpret, done, send, recv, call, refuse, run_proc, negotiate_proc, hello_proc,
  server_proc, result_proc, start_proc, welcome_proc, client_proc,
}
use andri.Session.Client
use andri.Session.Network.{checked, within_cap}

-- What follows a step that succeeds may be replaced by what does the same.
on_ok_ext :
    {S A B : Type 0} (r : IoResult A × S) (f g : A → Io S B)
    → ((a : A) (s : S) → f a s ≡ g a s)
    → on_ok r f ≡ on_ok r g
on_ok_ext (ok a, s) f g h = h a s
on_ok_ext (err e, s) f g h = refl

on_ok-ok : {S : Type 0} (r : IoResult (Unit {0}) × S) → on_ok r (λ _ s. (ok tt, s)) ≡ r
on_ok-ok (ok u, s) = refl
on_ok-ok (err e, s) = refl

module _ {F : Type 0} (codec : Codec F) (st : Stream) where
  interpret-call :
      {A B : Type 0} (r : IoResult B) (k : B → Proc F A) (f : B → Io st.S A) (s : st.S)
      → ((b : B) (s' : st.S) → interpret codec st (k b) s' ≡ f b s')
      → interpret codec st (call r k) s ≡ on_ok (r, s) f
  unfolding interpret
  interpret-call (ok b) k f s h = h b s
  interpret-call (err e) k f s h = refl

  write_msg-within_cap :
      (m : Msg F) (r : IoResult (List ℕ)) (e : IoError) (s : st.S)
      → codec.to_vec m ≡ r
      → within_cap r ≡ err e
      → write_msg codec st m s ≡ (err e, s)
  unfolding write_msg
  write_msg-within_cap m (err x) e s encodes fails = rw encodes (ap (λ y. (y, s)) fails)
  write_msg-within_cap m (ok payload) e s encodes fails =
      elim (Bool-cases (ltb max_frame_bytes (length payload))) [
        | inl big ↦ rw (encodes, big) (ap (λ y. (y, s)) (rw big at fails))
        | inr small ↦
            let clash : Path (IoResult (Unit {0})) (ok tt) (err e) = rw small at fails in cc
      ]

  -- A message that does not pass the checks is not written, and leaves the connection as it was.
  pub write_msg-checked :
      (m : Msg F) (e : IoError) (s : st.S)
      → checked codec m ≡ err e
      → write_msg codec st m s ≡ (err e, s)
  write_msg-checked m e s fails = write_msg-within_cap m (codec.to_vec m) e s refl fails

  module _ (side : ServerSide F) where
    interpret-refuse :
        (e : ProtoError) (s : st.S)
        → interpret codec st (refuse codec st side e) s ≡ reject codec st e s
    unfolding interpret reject
    interpret-refuse e s = refl

    interpret-run :
        (neg : Negotiate) (m : Msg F) (s : st.S)
        → interpret codec st (run_proc codec st side neg m) s ≡ on_run codec st side neg m s
    unfolding interpret on_run
    interpret-run neg Msg.run s =
        interpret-call (Server.measure codec st side neg neg.mode) _ _ s
          (λ r s'. on_ok-ok (write_msg codec st (Msg.result r) (read_msg codec st s').1))
    interpret-run neg _ s = interpret-refuse ProtoError.unexpected_message s

    interpret-negotiate :
        (m : Msg F) (s : st.S)
        → interpret codec st (negotiate_proc codec st side m) s ≡ on_negotiate codec st side m s
    unfolding interpret on_negotiate
    interpret-negotiate (Msg.negotiate neg) s =
        interpret-call (Server.bind codec st side neg.mode) _ _ s (λ port s1.
          on_ok_ext (write_msg codec st _ s1) _ _
            (λ _ s2. on_ok_ext (read_msg codec st s2) _ _ (interpret-run neg)))
    interpret-negotiate _ s = interpret-refuse ProtoError.unexpected_message s

    after_welcome :
        (b : Bool) (s : st.S)
        → interpret codec st
            (if not b
              then refuse codec st side ProtoError.version_mismatch
              else recv (negotiate_proc codec st side))
            s
          ≡ (if not b
                then reject codec st ProtoError.version_mismatch
                else (read_msg codec st >>= on_negotiate codec st side))
              s
    unfolding interpret
    after_welcome true s = on_ok_ext (read_msg codec st s) _ _ interpret-negotiate
    after_welcome false s = interpret-refuse ProtoError.version_mismatch s

    interpret-hello :
        (m : Msg F) (s : st.S)
        → interpret codec st (hello_proc codec st side m) s ≡ on_hello codec st side m s
    unfolding interpret on_hello
    interpret-hello (Msg.hello h) s =
        on_ok_ext (write_msg codec st _ s) _ _
          (λ _ s'. after_welcome (h.protocol_version == protocol_version) s')
    interpret-hello _ s = interpret-refuse ProtoError.unexpected_message s

    -- The server of the source is this process over the framed connection, whatever the connection
    -- and the JSON library do: it sends, reads and returns the same in every case.
    pub interpret-server_proc :
        (s : st.S)
        → interpret codec st (server_proc codec st side) s ≡ serve_session codec st side s
    unfolding interpret server_proc serve_session
    interpret-server_proc s = on_ok_ext (read_msg codec st s) _ _ interpret-hello

  module _ (side : ClientSide) (opts : ClientOpts) where
    interpret-result :
        (m : Msg F) (s : st.S)
        → interpret codec st (result_proc codec st side opts m) s ≡ on_result codec st side opts m s
    unfolding interpret
    interpret-result (Msg.result r) s = refl
    interpret-result _ s = refl

    interpret-start :
        (mode : Cli.Mode) (neg : Negotiate) (m : Msg F) (s : st.S)
        → interpret codec st (start_proc codec st side opts mode neg m) s
          ≡ on_start codec st side opts mode neg m s
    unfolding interpret on_start
    interpret-start mode neg (Msg.start start) s =
        on_ok_ext (write_msg codec st Msg.run s) _ _ (λ _ s1.
          interpret-call (Client.drive codec st side opts mode start neg) _ _ s1 (λ _ s2.
            on_ok_ext (write_msg codec st Msg.stop s2) _ _
              (λ _ s3. on_ok_ext (read_msg codec st s3) _ _ interpret-result)))
    interpret-start mode neg _ s = refl

    interpret-choice :
        (p : Plan) (refused : Bool) (s : st.S)
        → interpret codec st
            (if refused
              then done (err (failure "server rejected handshake"))
              else send
                  (Msg.negotiate (negotiate_for opts p))
                  (recv (start_proc codec st side opts p.mode (negotiate_for opts p))))
            s
          ≡ (if refused then throw (failure "server rejected handshake") else do
            write_msg codec st (Msg.negotiate (negotiate_for opts p))
            msg ← read_msg codec st
            on_start codec st side opts p.mode (negotiate_for opts p) msg)
              s
    unfolding interpret
    interpret-choice p true s = refl
    interpret-choice p false s = on_ok_ext (write_msg codec st _ s) _ _ (λ _ s1.
        on_ok_ext (read_msg codec st s1) _ _ (interpret-start p.mode (negotiate_for opts p)))

    interpret-welcome :
        (p : Plan) (m : Msg F) (s : st.S)
        → interpret codec st (welcome_proc codec st side opts p m) s
          ≡ on_welcome codec st side opts p m s
    unfolding interpret on_welcome
    interpret-welcome p (Msg.welcome w) s =
        interpret-choice p (not w.accepted || not (w.nonce == Client.client_nonce)) s
    interpret-welcome p _ s = refl

    -- The client of the source, once it is connected, is this process over the framed connection.
    pub interpret-client_proc :
        (p : Plan) (s : st.S)
        → interpret codec st (client_proc codec st side opts p) s
          ≡ client_session codec st side opts p s
    unfolding interpret client_proc client_session
    interpret-client_proc p s =
        on_ok_ext (write_msg codec st _ s) _ _
          (λ _ s1. on_ok_ext (read_msg codec st s1) _ _ (interpret-welcome p))
