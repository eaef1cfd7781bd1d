-- ===== src/Session/ClientSafety.antt =====
-- The client against any server: what it has sent when a session ends, and what led to it.
use andri.Common.{
  ℕ, ◌≡◌, refl, List, [], ◌∷◌, ◌++◌, true, not, ◌||◌, ◌==◌, arith, Bool-cases, inl, inr,
}
use andri.Io.{IoError, IoResult, ok, err}
use andri.Cli.{ClientOpts}
use andri.Proto.Messages.{Welcome, Negotiate, Start, TestResult, Msg}
use andri.Proto.Stream.{Stream, IsByteStream, Codec}
use andri.Proto.Frame.{frame}
use andri.Session.DataPath.{ClientSide}
use andri.Session.Client.{
  client_nonce, Plan, negotiate_for, drive, on_result, on_start, on_welcome, client_session,
}
use andri.Session.ClientLaws.{client_hello}
use andri.Session.Transcript.{Reads, Sends, Ends, Ends-read, Ends-write, Ends-lift, Wrote}

module _ {F : Type 0} (codec : Codec F) (st : Stream) (up : IsByteStream st) (side : ClientSide)
    (opts : ClientOpts) (p : Plan) where
  open up use {written}

  abbrev neg : Negotiate
  neg = negotiate_for opts p

  module _ (s0 : st.S) where
    -- `Hello` is sent, and the server's `Welcome` accepts the version and echoes the nonce.
    abbrev pub Welcomed : st.S → Type 0
    Welcomed s2 =
        (w : Welcome) × (s1 : st.S) × Sends codec st up (Msg.hello client_hello) s0 s1
        × Reads codec st up (Msg.welcome w) s1 s2
        × (w.accepted ≡ true)
        × (w.nonce ≡ client_nonce)

    -- After that `Negotiate` is sent and `Start` read.
    abbrev pub Started : Start → st.S → Type 0
    Started start s4 =
        (s2 s3 : st.S) × Welcomed s2
        × Sends codec st up (Msg.negotiate neg) s2 s3
        × Reads codec st up (Msg.start start) s3 s4

    -- After that `Run` is sent, the data path succeeds, and `Stop` is sent.
    abbrev pub Stopped : st.S → Type 0
    Stopped s6 =
        (start : Start) × (s4 s5 : st.S) × Started start s4
        × Sends codec st up Msg.run s4 s5
        × (drive codec st side opts p.mode start neg ≡ ok tt)
        × Sends codec st up Msg.stop s5 s6

    -- How a session can end, with the messages that the client has sent by then.
    pub data Asked : IoResult (TestResult F) → List (Msg F) → Type 0 where
      unsent : (e : IoError) → Asked (err e) []
      greeted : (e : IoError) → Asked (err e) (Msg.hello client_hello ∷ [])
      negotiated :
          (e : IoError) (s2 : st.S)
          → Welcomed s2
          → Asked (err e) (Msg.hello client_hello ∷ Msg.negotiate neg ∷ [])
      ran :
          (e : IoError) (start : Start) (s4 : st.S)
          → Started start s4
          → Asked (err e) (Msg.hello client_hello ∷ Msg.negotiate neg ∷ Msg.run ∷ [])
      stopped :
          (e : IoError) (s6 : st.S)
          → Stopped s6
          → Asked (err e) (Msg.hello client_hello ∷ Msg.negotiate neg ∷ Msg.run ∷ Msg.stop ∷ [])
      got :
          (r : TestResult F) (s6 s7 : st.S)
          → Stopped s6
          → Reads codec st up (Msg.result r) s6 s7
          → Asked (ok r) (Msg.hello client_hello ∷ Msg.negotiate neg ∷ Msg.run ∷ Msg.stop ∷ [])

    abbrev AfterHello : IoResult (TestResult F) → List (Msg F) → Type 0
    AfterHello r ms = Asked r (Msg.hello client_hello ∷ ms)

    abbrev AfterNegotiate : IoResult (TestResult F) → List (Msg F) → Type 0
    AfterNegotiate r ms = AfterHello r (Msg.negotiate neg ∷ ms)

    abbrev AfterRun : IoResult (TestResult F) → List (Msg F) → Type 0
    AfterRun r ms = AfterNegotiate r (Msg.run ∷ ms)

    abbrev AfterStop : IoResult (TestResult F) → List (Msg F) → Type 0
    AfterStop r ms = AfterRun r (Msg.stop ∷ ms)

    on_result_safe :
        (u : List ℕ) (m : Msg F) (s6 s7 : st.S)
        → Stopped s6
        → Reads codec st up m s6 s7
        → written s7 ≡ u
        → Ends codec st up AfterStop u (on_result codec st side opts m s7)
    on_result_safe u (Msg.result r) s6 s7 done heard e = ([], got r s6 s7 done heard, e)
    on_result_safe u _ s6 s7 done heard e = ([], stopped _ s6 done, e)

    on_start_safe :
        (u : List ℕ) (m : Msg F) (s2 s3 s4 : st.S)
        → Welcomed s2
        → Sends codec st up (Msg.negotiate neg) s2 s3
        → Reads codec st up m s3 s4
        → written s4 ≡ u
        → Ends codec st up AfterNegotiate u (on_start codec st side opts p.mode neg m s4)
    unfolding on_start
    on_start_safe u (Msg.start start) s2 s3 s4 welcomed asked heard e =
        let begun : Started start s4 = (s2, s3, welcomed, asked, heard) in
        Ends-write codec st up AfterNegotiate u (λ x. negotiated x s2 welcomed) Msg.run s4 _ e
          (λ run s5 going e5.
            Ends-lift codec st up AfterRun (u ++ frame run) (λ x. ran x start s4 begun)
              (drive codec st side opts p.mode start neg) s5 _ e5
              (λ _ driven.
                Ends-write codec st up AfterRun (u ++ frame run) (λ x. ran x start s4 begun)
                  Msg.stop s5 _ e5
                  (λ stop s6 ends e6.
                    let done : Stopped s6 = (start, s4, s5, begun, going, driven, ends) in
                    Ends-read codec st up AfterStop ((u ++ frame run) ++ frame stop)
                      (λ x. stopped x s6 done) s6 _ e6
                      (λ m s7 told e7. on_result_safe _ m s6 s7 done told e7))))
    on_start_safe u _ s2 s3 s4 welcomed asked heard e = ([], negotiated _ s2 welcomed, e)

    on_welcome_safe :
        (u : List ℕ) (m : Msg F) (s1 s2 : st.S)
        → Sends codec st up (Msg.hello client_hello) s0 s1
        → Reads codec st up m s1 s2
        → written s2 ≡ u
        → Ends codec st up AfterHello u (on_welcome codec st side opts p m s2)
    unfolding on_welcome
    on_welcome_safe u (Msg.welcome w) s1 s2 greets heard e =
        elim (Bool-cases (not w.accepted || not (w.nonce == client_nonce))) [
          | inl refused ↦ rw (refused, on_welcome) ([], greeted _, e)
          | inr accepted ↦
              let welcomed : Welcomed s2 = (w, s1, greets, heard, ground arith, ground arith) in
              rw (accepted, on_welcome)
                (Ends-write codec st up AfterHello u greeted (Msg.negotiate neg) s2 _ e
                  (λ payload s3 asked e3.
                    Ends-read codec st up AfterNegotiate (u ++ frame payload)
                      (λ x. negotiated x s2 welcomed) s3 _ e3
                      (λ m s4 told e4. on_start_safe _ m s2 s3 s4 welcomed asked told e4)))
        ]
    on_welcome_safe u _ s1 s2 greets heard e = ([], greeted _, e)

    -- Whatever the server sends or leaves out, on a connection that stays up: when the client's
    -- session ends, it has sent whole messages and nothing else, a beginning of `Hello`,
    -- `Negotiate` for the chosen mode, `Run` and `Stop`. `Negotiate` goes only to a server whose
    -- `Welcome` accepted the version and echoed the nonce, `Run` only after its `Start`, and `Stop`
    -- only after a data path for that `Start` that succeeded; the result returned is the one that
    -- the server sent after all four.
    pub client_session_safe :
        (ms : List (Msg F)) × Asked (client_session codec st side opts p s0).0 ms
        × Wrote codec (written s0) (written (client_session codec st side opts p s0).1) ms
    unfolding client_session
    client_session_safe =
        Ends-write codec st up Asked (written s0) unsent (Msg.hello client_hello) s0 _ refl
          (λ payload s1 greets e.
            Ends-read codec st up AfterHello (written s0 ++ frame payload) greeted s1 _ e
              (λ m s2 heard e2. on_welcome_safe _ m s1 s2 greets heard e2))
