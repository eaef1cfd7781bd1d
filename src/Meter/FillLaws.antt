-- ===== src/Meter/FillLaws.antt =====
-- The payload bytes of `fill_random` (src/meter.rs).
use andri.Common.{
  ℕ, zero, suc, ◌+◌, ◌-◌, ◌*◌, ◌/◌, ◌%◌, ◌≤◌, ◌<◌, ◌≡◌, refl, sym, ap, ◌∙◌, subst, List, ◌++◌,
  length, take, arith, All, IsByte, length-append, length-take, All-append, All-take,
  take-append_le, take-append_add, take-take,
}
use andri.Bytes.{to_le, length-to_le, to_le-IsByte}
use andri.Meter.Fill.{advance, mix, fill_chunks, fill_random}

-- The next eight bytes.
abbrev word : ℕ → List ℕ
word s = to_le 8 (mix (advance s))

-- The test for a remainder does not matter: no bytes are taken where there is none.
fill_chunks-zero : (rem s : ℕ) → fill_chunks 0 rem s ≡ take rem (word s)
unfolding fill_chunks
fill_chunks-zero zero s = refl
fill_chunks-zero (suc rem) s = ground arith

fill_chunks-suc :
    (k rem s : ℕ) → fill_chunks (suc k) rem s ≡ word s ++ fill_chunks k rem (advance s)
unfolding fill_chunks
fill_chunks-suc k rem s = refl

length-fill_chunks : (k rem s : ℕ) → rem < 8 → length (fill_chunks k rem s) ≡ 8 * k + rem
length-fill_chunks zero rem s h =
    rw (fill_chunks-zero rem s, length-take rem (word s), length-to_le 8 (mix (advance s)))
      (omega arith)
length-fill_chunks (suc k) rem s h =
    rw
      (
        fill_chunks-suc k rem s,
        length-append (word s) (fill_chunks k rem (advance s)),
        length-to_le 8 (mix (advance s)),
      )
      (omega (arith, length-fill_chunks k rem (advance s) h))

fill_chunks-IsByte : (k rem s : ℕ) → All IsByte (fill_chunks k rem s)
fill_chunks-IsByte zero rem s =
    rw (fill_chunks-zero rem s) (All-take IsByte rem (word s) (to_le-IsByte 8 (mix (advance s))))
fill_chunks-IsByte (suc k) rem s = rw (fill_chunks-suc k rem s) (
    All-append IsByte (word s) (fill_chunks k rem (advance s)) (to_le-IsByte 8 (mix (advance s)))
      (fill_chunks-IsByte k rem (advance s)))

-- `take` past a whole word.
take-word : (n s : ℕ) (ys : List ℕ) → 8 ≤ n → take n (word s ++ ys) ≡ word s ++ take (n - 8) ys
take-word n s ys h =
    let eight = length-to_le 8 (mix (advance s)) in
    let split : length (word s) + (n - 8) ≡ n = omega arith in
    subst (λ (m : ℕ). take m (word s ++ ys) ≡ word s ++ take (n - 8) ys) split
      (take-append_add (word s) ys (n - 8))

fill_chunks_prefix :
    (k rem k' rem' n s : ℕ)
    → rem < 8
    → rem' < 8
    → n ≡ 8 * k + rem
    → n ≤ 8 * k' + rem'
    → fill_chunks k rem s ≡ take n (fill_chunks k' rem' s)
fill_chunks_prefix zero rem zero rem' n s h h' e le =
    let n_rem : n ≡ rem = omega arith in
    rw (fill_chunks-zero rem s, fill_chunks-zero rem' s, n_rem)
      (sym (take-take rem rem' (word s) (omega arith)))
fill_chunks_prefix zero rem (suc k') rem' n s h h' e le =
    let n_rem : n ≡ rem = omega arith in
    let eight = length-to_le 8 (mix (advance s)) in
    rw (fill_chunks-zero rem s, fill_chunks-suc k' rem' s, n_rem)
      (sym (take-append_le rem (word s) (fill_chunks k' rem' (advance s)) (omega arith)))
fill_chunks_prefix (suc k) rem zero rem' n s h h' e le = absurd (omega arith)
fill_chunks_prefix (suc k) rem (suc k') rem' n s h h' e le =
    let rest =
      fill_chunks_prefix k rem k' rem' (n - 8) (advance s) h h' (omega arith) (omega arith) in
    rw (fill_chunks-suc k rem s, fill_chunks-suc k' rem' s)
      (ap (◌++◌ (word s)) rest
        ∙ sym (take-word n s (fill_chunks k' rem' (advance s)) (omega arith)))

-- The whole buffer is filled, with bytes, whatever its length and the seed.
pub length-fill_random :
    (buf : List ℕ) (seed : ℕ)
    → (length (fill_random buf seed) ≡ length buf) × All IsByte (fill_random buf seed)
unfolding fill_random
length-fill_random buf seed = (
  length-fill_chunks (length buf / 8) (length buf % 8) seed (omega arith) ∙ omega arith,
  fill_chunks-IsByte (length buf / 8) (length buf % 8) seed,
)

-- The bytes come from one stream that the seed alone fixes: a shorter buffer holds the first
-- bytes of a longer one filled from the same seed, also where the lengths are no multiple of 8.
pub fill_random_prefix :
    (short long : List ℕ) (seed : ℕ)
    → length short ≤ length long
    → fill_random short seed ≡ take (length short) (fill_random long seed)
unfolding fill_random
fill_random_prefix short long seed h =
    fill_chunks_prefix (length short / 8) (length short % 8) (length long / 8) (length long % 8)
      (length short) seed (omega arith) (omega arith) (omega arith) (omega arith)
