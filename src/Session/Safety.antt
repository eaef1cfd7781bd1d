-- ===== src/Session/Safety.antt =====
-- The server against any client: what it has sent when a session ends, and what led to it.
use andri.Common.{
  ℕ, ◌≡◌, ◌≢◌, refl, ◌∙◌, List, [], ◌∷◌, ◌++◌, Bool, true, false, not, ◌==◌, if◌then◌else◌, arith,
}
use andri.Io.{IoError, IoResult, ok, err, ◌>>=◌}
use andri.Proto.Messages.{Hello, Negotiate, TestResult, ProtoError, Msg, protocol_version}
use andri.Proto.Stream.{Stream, IsByteStream, Codec}
use andri.Proto.Frame.{frame, read_msg}
use andri.Session.DataPath.{ServerSide}
use andri.Session.Server.{
  rejected, reject, welcome_for, bind, measure, on_run, on_negotiate, on_hello, serve_session,
}
use andri.Session.ServerLaws.{start_at}
use andri.Session.Transcript.{
  Reads, Sends, Ends, Ends-read, Ends-write, Ends-lift, read_msg_quiet, Wrote, Ends-last,
}

module _ {F : Type 0} (codec : Codec F) (st : Stream) (up : IsByteStream st)
    (side : ServerSide F) where
  open up use {written}

  reject_safe :
      (P : IoResult (Unit {0}) → List (Msg F) → Type 0) (w : List ℕ) (e : ProtoError) (s : st.S)
      → ((x : IoError) → P (err x) [])
      → P (err (rejected e)) (Msg.error e ∷ [])
      → written s ≡ w
      → Ends codec st up P w (reject codec st e s)
  unfolding reject
  reject_safe P w e s fails refused h =
      Ends-write codec st up P w fails (Msg.error e) s _ h (λ payload s' _ h'. ([], refused, h'))

  module _ (s0 : st.S) where
    -- The client's `Hello` is read and answered with `Welcome`, in a session that starts in `s0`.
    abbrev pub Greeted : Hello → st.S → Type 0
    Greeted h s2 =
        (s1 : st.S) × Reads codec st up (Msg.hello h) s0 s1
        × Sends codec st up (Msg.welcome (welcome_for codec st h)) s1 s2

    -- After that, for a client of the server's version, `Negotiate` is read, the port of its mode is
    -- bound and `Start` is sent.
    abbrev pub Started : Hello → Negotiate → ℕ → st.S → Type 0
    Started h neg port s4 =
        (s2 s3 : st.S) × Greeted h s2
        × (h.protocol_version ≡ protocol_version)
        × Reads codec st up (Msg.negotiate neg) s2 s3
        × (bind codec st side neg.mode ≡ ok port)
        × Sends codec st up (start_at codec st up side port) s3 s4

    -- After that `Run` is read, and the data path of the mode returns this result.
    abbrev pub Measured : Hello → Negotiate → ℕ → TestResult F → Type 0
    Measured h neg port r =
        (s4 s5 : st.S) × Started h neg port s4
        × Reads codec st up Msg.run s4 s5
        × (measure codec st side neg neg.mode ≡ ok r)

    -- How a session can end, with the messages that the server has sent by then.
    pub data Answer : IoResult (Unit {0}) → List (Msg F) → Type 0 where
      unread : (e : IoError) → Answer (err e) []
      refused_greeting :
          Answer
            (err (rejected ProtoError.unexpected_message))
            (Msg.error ProtoError.unexpected_message ∷ [])
      greeted :
          (h : Hello) (s2 : st.S) (e : IoError)
          → Greeted h s2
          → Answer (err e) (Msg.welcome (welcome_for codec st h) ∷ [])
      mismatched :
          (h : Hello) (s2 : st.S)
          → Greeted h s2
          → h.protocol_version ≢ protocol_version
          → Answer
              (err (rejected ProtoError.version_mismatch))
              (Msg.welcome (welcome_for codec st h) ∷ Msg.error ProtoError.version_mismatch ∷ [])
      refused_negotiation :
          (h : Hello) (s2 : st.S)
          → Greeted h s2
          → h.protocol_version ≡ protocol_version
          → Answer
              (err (rejected ProtoError.unexpected_message))
              (Msg.welcome (welcome_for codec st h) ∷ Msg.error ProtoError.unexpected_message ∷ [])
      started :
          (h : Hello) (neg : Negotiate) (port : ℕ) (s4 : st.S) (e : IoError)
          → Started h neg port s4
          → Answer
              (err e)
              (Msg.welcome (welcome_for codec st h) ∷ start_at codec st up side port ∷ [])
      refused_run :
          (h : Hello) (neg : Negotiate) (port : ℕ) (s4 : st.S)
          → Started h neg port s4
          → Answer (err (rejected ProtoError.unexpected_message)) (
              Msg.welcome (welcome_for codec st h)
              ∷ start_at codec st up side port
              ∷ Msg.error ProtoError.unexpected_message
              ∷ [])
      answered :
          (h : Hello) (neg : Negotiate) (port : ℕ) (r : TestResult F)
          → Measured h neg port r
          → Answer (ok tt) (
              Msg.welcome (welcome_for codec st h)
              ∷ start_at codec st up side port
              ∷ Msg.result r
              ∷ [])

    -- The same, with what has been sent already in front.
    abbrev AfterHello : Hello → IoResult (Unit {0}) → List (Msg F) → Type 0
    AfterHello h r ms = Answer r (Msg.welcome (welcome_for codec st h) ∷ ms)

    abbrev AfterStart : Hello → ℕ → IoResult (Unit {0}) → List (Msg F) → Type 0
    AfterStart h port r ms =
        Answer r (Msg.welcome (welcome_for codec st h) ∷ start_at codec st up side port ∷ ms)

    on_run_safe :
        (w : List ℕ) (h : Hello) (neg : Negotiate) (port : ℕ) (m : Msg F) (s4 s5 : st.S)
        → Started h neg port s4
        → Reads codec st up m s4 s5
        → written s5 ≡ w
        → Ends codec st up (AfterStart h port) w (on_run codec st side neg m s5)
    unfolding on_run
    on_run_safe w h neg port Msg.run s4 s5 begun heard e =
        let fails : (x : IoError) → AfterStart h port (err x) [] =
          λ x. started h neg port s4 x begun in
        Ends-lift codec st up (AfterStart h port) w fails (measure codec st side neg neg.mode) s5 _
          e
          (λ r measured.
            Ends-last codec st up (AfterStart h port) w (Msg.result r) _ fails
              (answered h neg port r (s4, s5, begun, heard, measured))
              (read_msg_quiet codec st up s5 ∙ e))
    on_run_safe w h neg port _ s4 s5 begun heard e =
        reject_safe (AfterStart h port) w ProtoError.unexpected_message s5
          (λ x. started h neg port s4 x begun) (refused_run h neg port s4 begun) e

    on_negotiate_safe :
        (w : List ℕ) (h : Hello) (m : Msg F) (s2 s3 : st.S)
        → Greeted h s2
        → h.protocol_version ≡ protocol_version
        → Reads codec st up m s2 s3
        → written s3 ≡ w
        → Ends codec st up (AfterHello h) w (on_negotiate codec st side m s3)
    unfolding on_negotiate
    on_negotiate_safe w h (Msg.negotiate neg) s2 s3 met same heard e =
        let fails : (x : IoError) → AfterHello h (err x) [] = λ x. greeted h s2 x met in
        Ends-lift codec st up (AfterHello h) w fails (bind codec st side neg.mode) s3 _ e
          (λ port bound.
            Ends-write codec st up (AfterHello h) w fails (start_at codec st up side port) s3 _ e
              (λ payload s4 sent e4.
                let begun : Started h neg port s4 = (s2, s3, met, same, heard, bound, sent) in
                Ends-read codec st up (AfterStart h port) (w ++ frame payload)
                  (λ x. started h neg port s4 x begun) s4 _ e4
                  (λ m s5 told e5.
                    on_run_safe (w ++ frame payload) h neg port m s4 s5 begun told e5)))
    on_negotiate_safe w h _ s2 s3 met same heard e =
        reject_safe (AfterHello h) w ProtoError.unexpected_message s3 (λ x. greeted h s2 x met)
          (refused_negotiation h s2 met same) e

    -- After `Welcome`, by whether the version was accepted.
    after_welcome :
        (h : Hello) (b : Bool)
        → (b ≡ true → h.protocol_version ≡ protocol_version)
        → (b ≡ false → h.protocol_version ≢ protocol_version)
        → (w : List ℕ) (s2 : st.S) → Greeted h s2
        → written s2 ≡ w
        → Ends codec st up (AfterHello h) w (
            (if not b
                then reject codec st ProtoError.version_mismatch
                else (read_msg codec st >>= on_negotiate codec st side))
              s2)
    after_welcome h true same other w s2 met e =
        Ends-read codec st up (AfterHello h) w (λ x. greeted h s2 x met) s2 _ e
          (λ m s3 heard e3. on_negotiate_safe w h m s2 s3 met (same refl) heard e3)
    after_welcome h false same other w s2 met e =
        reject_safe (AfterHello h) w ProtoError.version_mismatch s2 (λ x. greeted h s2 x met)
          (mismatched h s2 met (other refl)) e

    on_hello_safe :
        (w : List ℕ) (m : Msg F) (s1 : st.S)
        → Reads codec st up m s0 s1
        → written s1 ≡ w
        → Ends codec st up Answer w (on_hello codec st side m s1)
    unfolding on_hello
    on_hello_safe w (Msg.hello h) s1 heard e =
        Ends-write codec st up Answer w unread (Msg.welcome (welcome_for codec st h)) s1 _ e
          (λ payload s2 sent e2.
            after_welcome h (h.protocol_version == protocol_version) (λ v. ground arith)
              (λ v. ground arith) (w ++ frame payload) s2 (s1, heard, sent) e2)
    on_hello_safe w _ s1 heard e =
        reject_safe Answer w ProtoError.unexpected_message s1 unread refused_greeting e

    -- Whatever the client sends or leaves out, on a connection that stays up: when the session ends,
    -- the server has sent whole messages and nothing else, and they are those of one way to end. It
    -- ends well only with `Welcome`, `Start` and the result that the data path of the negotiated
    -- mode has measured, for a client of its own version that has sent `Hello`, `Negotiate` and
    -- `Run` in this order; after an error it sends nothing more.
    pub serve_session_safe :
        (ms : List (Msg F)) × Answer (serve_session codec st side s0).0 ms
        × Wrote codec (written s0) (written (serve_session codec st side s0).1) ms
    unfolding serve_session
    serve_session_safe =
        Ends-read codec st up Answer (written s0) unread s0 _ refl
          (λ m s1 heard e. on_hello_safe (written s0) m s1 heard e)
