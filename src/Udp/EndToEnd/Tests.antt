-- ===== src/Udp/EndToEnd/Tests.antt =====
-- One run of both ends of the UDP mode: three datagrams, delivered in another order, or the middle
-- one dropped.
use mathlib.Core.List.{Perm}
use mathlib.Core.List.Perm
use andri.Common.{
  ℕ, zero, suc, ◌+◌, ◌-◌, ◌*◌, ◌<◌, ◌≤◌, ◌≡◌, refl, sym, subst, some, none, List, [], ◌∷◌, ◌++◌,
  length, arith, true, false,
}
use andri.Io.{ok}
use andri.FloatModel.{whole, fixed_point}
use andri.Bytes.{to_le, from_le}
use andri.Proto.Messages.{Mode, Negotiate, TestResult}
use andri.Meter.Fill.{fill_random, fill_chunks}
use andri.Udp.Header.{packet_size, unstamp}
use andri.Udp.Serve.{Event, stop, datagram, serve}
use andri.Udp.ServeLaws.{heard}
use andri.Udp.Window.{window, least, greatest}
use andri.Udp.Drive.{
  Round, Sender, Driven, finished, running, drive, drive_loop, send_burst, new_sender,
  packets_per_tick, ticks_per_sec,
}
use andri.Udp.Rate.{IsExact, drive-rate}
use andri.Udp.Finish.{Finishes, drive-Finishes}
use andri.Udp.Tally.{tally, from}
use andri.Udp.Delivery.{number}
use andri.Udp.EndToEnd.{Counted, drive-serve_lossless, drive-serve_losses}

-- 18-byte datagrams at 144000 bits/s, one each round, for one second without warm-up.
abbrev neg : Negotiate
neg = record {
  mode = Mode.udp;
  duration_secs = 1;
  warmup_secs = 0;
  parallel = 1;
  buffer_bytes = 65536;
  bidir = false;
  bitrate_bps = some 144000;
  packet_bytes = some 18;
  file_len = none;
  null_source = none;
}

abbrev round : ℕ → Round
round at = record { checked = at; clock = λ i. at + i; answer = λ i. ok tt; reported = at }

abbrev rounds : List Round
rounds = round 5 ∷ round 10 ∷ round 15 ∷ round 1000000000 ∷ []

abbrev sender_of : Driven whole → Sender whole
sender_of (finished st) = st
sender_of (running st) = st
sender_of _ = new_sender whole 18 7

abbrev done : Sender whole
done = sender_of (drive whole 7 neg true rounds)

abbrev sent : List (List ℕ)
sent = (done.burst).sent

abbrev nth : ℕ → List (List ℕ) → List ℕ
nth i [] = []
nth zero (x ∷ xs) = x
nth (suc i) (x ∷ xs) = nth i xs

abbrev d : ℕ → List ℕ
d i = nth i sent

rounds_end : drive whole 7 neg true rounds ≡ finished done
unfolding drive drive_loop send_burst new_sender packets_per_tick fill_random fill_chunks to_le
rounds_end = refl

sent_three : d 0 ∷ d 1 ∷ d 2 ∷ [] ≡ sent
unfolding drive drive_loop send_burst new_sender packets_per_tick fill_random fill_chunks to_le
sent_three = refl

few : length sent ≡ 3
unfolding drive drive_loop send_burst new_sender packets_per_tick fill_random fill_chunks to_le
few = refl

abbrev shuffled : List Event
shuffled = datagram (d 0) 20 20 ∷ datagram (d 2) 30 30 ∷ datagram (d 1) 40 40 ∷ stop 50 ∷ []

abbrev holed : List Event
holed = datagram (d 0) 20 20 ∷ datagram (d 2) 30 30 ∷ stop 50 ∷ []

reordered : Perm (d 0 ∷ d 2 ∷ d 1 ∷ []) sent
reordered = rw sent_three at (Perm.cons (d 0) (Perm.swap (d 1) (d 2) []))

drive-serve_lossless_example :
    (r : TestResult ℕ) × (serve whole neg 0 shuffled ≡ some (ok r))
    × Counted r (length sent - 0) (length sent - 0) 0
drive-serve_lossless_example =
    drive-serve_lossless whole 7 0 neg true rounds done rounds_end (omega (arith, few)) shuffled 50
      refl reordered (omega (arith, few))

first_hears : least (window 0 (heard 0 holed)) ≡ some 0
unfolding drive drive_loop send_burst new_sender packets_per_tick fill_random fill_chunks to_le
    unstamp from_le
first_hears = refl

last_hears : greatest (window 0 (heard 0 holed)) ≡ length sent - 1
unfolding drive drive_loop send_burst new_sender packets_per_tick fill_random fill_chunks to_le
    unstamp from_le
last_hears = refl

drive-serve_losses_example :
    let lost = tally (λ x. from 0 (number x)) (d 1 ∷ []) in
    (r : TestResult ℕ) × (serve whole neg 0 holed ≡ some (ok r))
    × Counted r (length sent - 0) (length sent - 0 - lost) lost
drive-serve_losses_example =
    drive-serve_losses whole 7 0 neg true rounds done rounds_end (omega (arith, few)) holed 50 refl
      (d 1 ∷ []) reordered first_hears last_hears

drive-Finishes_example :
    Finishes whole
      (drive whole 7 neg true ((round 5 ∷ round 10 ∷ round 15 ∷ []) ++ (round 1000000000 ∷ [])))
drive-Finishes_example =
    drive-Finishes whole 7 neg true (round 5 ∷ round 10 ∷ round 15 ∷ []) [] (round 1000000000)
      ((λ i. refl), ((λ i. refl), ((λ i. refl), tt))) (omega arith)

-- 1.5 datagrams of 1000 bytes each tick.
abbrev brisk : Negotiate
brisk = record neg { duration_secs = 1; bitrate_bps = some 12_000_000; packet_bytes = some 1000 }

abbrev halves : IsExact (fixed_point 2) 2 3 3
halves = record {
  parts = λ k. k;
  zero_parts = refl;
  add_parts = λ k h. refl;
  floor_parts = λ k h. omega arith;
  sub_parts = λ k h. omega arith;
}

three_halves : packets_per_tick (fixed_point 2) 12_000_000 1000 ticks_per_sec ≡ 3
unfolding packets_per_tick
three_halves = refl

drive-rate_example :
    (last : Sender (fixed_point 2)) × (drive
        (fixed_point 2)
        7
        brisk
        true
        (round 5 ∷ round 10 ∷ round 15 ∷ [])
      ≡ running last)
    × (length (last.burst).sent * (packet_size brisk * 8 * 1000) ≤ 3 * 12_000_000)
    × (3 * 12_000_000 < suc (length (last.burst).sent) * (packet_size brisk * 8 * 1000))
drive-rate_example =
    drive-rate (fixed_point 2) 7 brisk true (round 5 ∷ round 10 ∷ round 15 ∷ []) 2 3
      (subst (IsExact (fixed_point 2) 2 3) (sym three_halves) halves, refl) (omega arith)
      ((λ i. refl), ((λ i. refl), ((λ i. refl), tt)))
      (omega arith, (omega arith, (omega arith, tt)))
