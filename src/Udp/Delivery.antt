-- ===== src/Udp/Delivery.antt =====
-- Which of the sender's datagrams the receiver hears, in whatever order: the numbers on both
-- sides, as sums that forget the order.
use andri.Common.{
  ℕ, zero, suc, ◌+◌, ◌-◌, ◌≤◌, ◌<◌, ◌≡◌, refl, ap, ◌∙◌, Option, none, some, List, [], ◌∷◌, length,
  max, arith,
}
use andri.Udp.Header.{unstamp}
use andri.Udp.LossJitter.{Arrival}
use andri.Udp.Window.{window, least, greatest, seqs}
use andri.Udp.Loss.{AtLeast}
use andri.Udp.Serve.{Event, stop, tick, datagram, recv_failed}
use andri.Udp.ServeLaws.{heard, add_stamped}
use andri.Udp.Pacing.{Numbered}
use andri.Udp.Tally.{tally, at, from}

-- The datagrams that come before the loop ends.
abbrev pub delivered : List Event → List (List ℕ)
delivered [] = []
delivered (stop end ∷ rest) = []
delivered (recv_failed e ∷ rest) = []
delivered (tick now ∷ rest) = delivered rest
delivered (datagram bytes now start_at ∷ rest) = bytes ∷ delivered rest

abbrev number_in : Option (ℕ × ℕ) → ℕ
number_in none = 0
number_in (some (seq, send_ns)) = seq

abbrev missing_in : Option (ℕ × ℕ) → ℕ
missing_in none = 1
missing_in (some (seq, send_ns)) = 0

-- The number in the header, and 1 for a datagram without one.
abbrev pub number : List ℕ → ℕ
number d = number_in (unstamp d)

abbrev pub headless : List ℕ → ℕ
headless d = missing_in (unstamp d)

tally-add_stamped :
    (f : ℕ → ℕ) (t0 n now : ℕ) (o : Option (ℕ × ℕ)) (rest : List Arrival)
    → missing_in o ≡ 0
    → tally (λ a. f a.seq) (add_stamped t0 n now o rest)
      ≡ f (number_in o) + tally (λ a. f a.seq) rest
tally-add_stamped f t0 n now none rest h = absurd (omega arith)
tally-add_stamped f t0 n now (some (seq, send_ns)) rest h = refl

pub tally-heard :
    (f : ℕ → ℕ) (t0 : ℕ) (events : List Event)
    → tally headless (delivered events) ≡ 0
    → tally (λ a. f a.seq) (heard t0 events) ≡ tally (λ d. f (number d)) (delivered events)
tally-heard f t0 [] h = refl
tally-heard f t0 (stop end ∷ rest) h = refl
tally-heard f t0 (recv_failed e ∷ rest) h = refl
tally-heard f t0 (tick now ∷ rest) h = tally-heard f t0 rest h
tally-heard f t0 (datagram bytes now start_at ∷ rest) h =
    let later = tally-heard f t0 rest (omega arith) in
    tally-add_stamped f t0 (length bytes) now (unstamp bytes) (heard t0 rest) (omega arith)
    ∙ ap (λ (n : ℕ). f (number bytes) + n) later

-- The sum over `n` numbers from `k` on.
abbrev pub over : (ℕ → ℕ) → ℕ → ℕ → ℕ
over f k zero = 0
over f k (suc n) = f k + over f (suc k) n

pub tally-Numbered :
    (f : ℕ → ℕ) (size k : ℕ) (ds : List (List ℕ))
    → Numbered size k ds
    → tally (λ d. f (number d)) ds ≡ over f k (length ds)
tally-Numbered f size k [] h = refl
tally-Numbered f size k (d ∷ ds) ((len, send_ns, read), h) =
    rw read (ap (λ (n : ℕ). f k + n) (tally-Numbered f size (suc k) ds h))

pub headless-Numbered :
    (size k : ℕ) (ds : List (List ℕ)) → Numbered size k ds → tally headless ds ≡ 0
headless-Numbered size k [] h = refl
headless-Numbered size k (d ∷ ds) ((len, send_ns, read), h) =
    rw read (omega (arith, headless-Numbered size (suc k) ds h))

over-at_below : (x k n : ℕ) → x < k → over (at x) k n ≡ 0
over-at_below x k zero h = refl
over-at_below x k (suc n) h = ground (arith, over-at_below x (suc k) n)

pub over-at_once : (x k n : ℕ) → over (at x) k n ≤ 1
over-at_once x k zero = omega arith
over-at_once x k (suc n) = ground (arith, over-at_once x (suc k) n, over-at_below x (suc k) n)

pub over-at_beyond : (x k n : ℕ) → k + n ≤ x → over (at x) k n ≡ 0
over-at_beyond x k zero h = refl
over-at_beyond x k (suc n) h = ground (arith, over-at_beyond x (suc k) n)

pub over-from : (w k n : ℕ) → over (from w) k n ≡ k + n - max w k
over-from w k zero = omega arith
over-from w k (suc n) = ground (arith, over-from w (suc k) n)

-- The window keeps what is numbered `w` or more.
pub length-window :
    (w : ℕ) (ps : List Arrival) → length (window w ps) ≡ tally (λ a. from w a.seq) ps
length-window w [] = refl
length-window w (a ∷ ps) = ground (arith, length-window w ps)

pub at-window :
    (k w : ℕ) (ps : List Arrival) → tally (at k) (seqs (window w ps)) ≤ tally (λ a. at k a.seq) ps
at-window k w [] = omega arith
at-window k w (a ∷ ps) = ground (arith, at-window k w ps)

pub least-window : (w : ℕ) (ps : List Arrival) → AtLeast w (least (window w ps))
least-window w [] = tt
least-window w (a ∷ ps) = ground (arith, least-window w ps)

pub greatest-window :
    (w n : ℕ) (ps : List Arrival)
    → 0 < n
    → ((k : ℕ) → n ≤ k → tally (λ a. at k a.seq) ps ≡ 0)
    → greatest (window w ps) < n
greatest-window w n [] pos h = pos
greatest-window w n (a ∷ ps) pos h =
    let later = greatest-window w n ps pos (λ k le. ground (arith, h k le)) in
    let here : a.seq < n = ground (arith, h a.seq) in ground (arith, later, here)
