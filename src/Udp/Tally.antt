-- ===== src/Udp/Tally.antt =====
-- Sums over the items of a list, which do not depend on their order: what is counted of a set of
-- datagrams, however they travel.
use mathlib.Core.List.{Perm, Permᴰ}
use mathlib.Core.Logic.{∥∥₁_elim}
use native.Mathlib.Nat.{ℕ_set}
use andri.Common.{
  ℕ, ◌+◌, ◌≤◌, ◌≡◌, refl, ap, ap₂, ◌∙◌, false, List, [], ◌∷◌, ◌++◌, ◌==◌, if◌then◌else◌, arith, leb,
}
use andri.Udp.Missing.{seen, duplicates}

module _ {A : Type 0} where
  abbrev pub tally : (A → ℕ) → List A → ℕ
  tally f [] = 0
  tally f (x ∷ xs) = f x + tally f xs

  pub tally-append : (f : A → ℕ) (xs ys : List A) → tally f (xs ++ ys) ≡ tally f xs + tally f ys
  tally-append f [] ys = omega arith
  tally-append f (x ∷ xs) ys = omega (arith, tally-append f xs ys)

  tally-Permᴰ : (f : A → ℕ) {xs ys : List A} → Permᴰ xs ys → tally f xs ≡ tally f ys
  tally-Permᴰ f Permᴰ.nil = refl
  tally-Permᴰ f (Permᴰ.cons {a} {b} e d) = ap₂ (λ (m n : ℕ). m + n) (ap f e) (tally-Permᴰ f d)
  tally-Permᴰ f (Permᴰ.swap {a} {b} {a'} {b'} {l} e g) = omega (arith, ap f e, ap f g)
  tally-Permᴰ f (Permᴰ.trans d e) = tally-Permᴰ f d ∙ tally-Permᴰ f e

  pub tally-perm : (f : A → ℕ) (xs ys : List A) → Perm xs ys → tally f xs ≡ tally f ys
  tally-perm f xs ys p = ∥∥₁_elim p (ℕ_set _ _) (λ d. tally-Permᴰ f d)

-- 1 at `k`, 0 elsewhere; 1 from `w` on, 0 below.
abbrev pub at : ℕ → ℕ → ℕ
at k x = if x == k then 1 else 0

abbrev pub from : ℕ → ℕ → ℕ
from w x = if leb w x then 1 else 0

seen-tally : (k : ℕ) (xs : List ℕ) → tally (at k) xs ≡ 0 → seen k xs ≡ false
seen-tally k [] h = refl
seen-tally k (x ∷ xs) h = ground (arith, seen-tally k xs)

-- Numbers that stand in a list once at most have no repeats.
pub duplicates-zero : (xs : List ℕ) → ((k : ℕ) → tally (at k) xs ≤ 1) → duplicates xs ≡ 0
duplicates-zero [] h = refl
duplicates-zero (x ∷ xs) h =
    let once : seen x xs ≡ false = seen-tally x xs (ground (arith, h x)) in
    ground (arith, once, duplicates-zero xs (λ k. ground (arith, h k)))
