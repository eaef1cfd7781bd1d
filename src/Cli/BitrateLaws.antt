-- ===== src/Cli/BitrateLaws.antt =====
-- What `parse_bitrate` of src/cli.rs accepts.
use andri.Common.{
  ℕ, ◌≡◌, refl, ap, ap₂, ◌∙◌, sym, false, ◌≢◌, ◌==◌, ◌||◌, Option, none, some, [], ◌∷◌, ◌++◌, arith,
  ◌⊎◌, inl, inr, Bool-cases,
}
use andri.Float.{Float}
use andri.Cli.Bitrate.{
  Text, Parser, Parsed, bitrate, invalid_bitrate, negative_bitrate, split_last, scale_of,
  number_and_scale, with_scale, with_last, scaled, parse_bitrate,
}

split_last-append : (s : Text) (c : ℕ) → split_last (s ++ (c ∷ [])) ≡ some (s, c)
split_last-append [] c = refl
split_last-append (d ∷ s) c = rw (split_last-append s c) refl

number_and_scale-append :
    (s : Text) (c m : ℕ) → scale_of c ≡ some m → number_and_scale (s ++ (c ∷ [])) ≡ (s, m)
number_and_scale-append s c m e =
    let whole = s ++ (c ∷ []) in
    ap (with_last whole) (split_last-append s c) ∙ ap (with_scale whole s) e

-- The number of a parsed bitrate, if it was accepted.
abbrev pub accepted : Parsed → Option ℕ
accepted (bitrate n) = some n
accepted (invalid_bitrate s) = none
accepted (negative_bitrate s) = none

-- What the suffixes of SI are worth, in upper and in lower case.
abbrev pub Suffix : ℕ → ℕ → Type 0
Suffix c m =
    (((c ≡ b'K') ⊎ (c ≡ b'k')) × (m ≡ 1_000))
    ⊎ (((c ≡ b'M') ⊎ (c ≡ b'm')) × (m ≡ 1_000_000))
    ⊎ (((c ≡ b'G') ⊎ (c ≡ b'g')) × (m ≡ 1_000_000_000))

-- A character that is no suffix.
abbrev pub Other : ℕ → Type 0
Other c = (c ≢ b'K') × (c ≢ b'k') × (c ≢ b'M') × (c ≢ b'm') × (c ≢ b'G') × (c ≢ b'g')

Suffix-scale_of :
    (c : ℕ) → ((m : ℕ) × Suffix c m × (scale_of c ≡ some m)) ⊎ (Other c × (scale_of c ≡ none))
Suffix-scale_of c = elim (Bool-cases (c == b'K' || c == b'k')) [
  | inl k ↦ inl (1_000, inl (ground arith, refl), rw k refl)
  | inr not_k ↦ elim (Bool-cases (c == b'M' || c == b'm')) [
    | inl m ↦ inl (1_000_000, inr (inl (ground arith, refl)), rw (not_k, m) refl)
    | inr not_m ↦ elim (Bool-cases (c == b'G' || c == b'g')) [
      | inl g ↦ inl (1_000_000_000, inr (inr (ground arith, refl)), rw (not_k, not_m, g) refl)
      | inr not_g ↦ inr (
        (ground arith, ground arith, ground arith, ground arith, ground arith, ground arith),
        rw (not_k, not_m, not_g) refl,
      )
    ]
  ]
]

split_last-cons :
    (c : ℕ) (s : Text)
    → (front : Text) × (last : ℕ) × (split_last (c ∷ s) ≡ some (front, last))
      × (c ∷ s ≡ front ++ (last ∷ []))
split_last-cons c [] = ([], c, refl, refl)
split_last-cons c (d ∷ s) =
    let (front, last, e, same) = split_last-cons d s in
    (c ∷ front, last, rw e refl, ap (λ l. c ∷ l) same)

split_last-none : (s : Text) → split_last s ≡ none → s ≡ []
split_last-none [] e = refl
split_last-none (c ∷ s) e =
    let (front, last, e', same) = split_last-cons c s in
    let clash : Path (Option (Text × ℕ)) (some (front, last)) none = sym e' ∙ e in cc

split_last-some :
    (s front : Text) (last : ℕ) → split_last s ≡ some (front, last) → s ≡ front ++ (last ∷ [])
split_last-some [] front last e = cc
split_last-some (c ∷ s) front last e =
    let (front', last', e', same) = split_last-cons c s in
    let both : Path (Option (Text × ℕ)) (some (front', last')) (some (front, last)) = sym e' ∙ e in
    let f : front' ≡ front = cc in
    let l : last' ≡ last = cc in same ∙ ap₂ (λ x y. x ++ (y ∷ [])) f l

-- Which part of an accepted text is the number, and its multiplier: all before a suffix, or the whole
-- of a text that ends in none.
abbrev pub Scale : Text → Text → ℕ → Type 0
Scale s number m =
    ((number ≡ s)
      × (m ≡ 1)
      × ((s ≡ []) ⊎ ((front : Text) × (last : ℕ) × (s ≡ front ++ (last ∷ [])) × Other last)))
    ⊎ ((last : ℕ) × (s ≡ number ++ (last ∷ [])) × Suffix last m)

module _ (fl : Float) (parser : Parser fl.F) where
  accepted-scaled :
      (s t : Text) (m : ℕ) (o : Option fl.F)
      → accepted (scaled fl parser s m o) ≡ accepted (scaled fl parser t m o)
  accepted-scaled s t m none = refl
  accepted-scaled s t m (some v) = ground arith

  -- Two suffixes with the same multiplier are worth the same, upper or lower case: the same number
  -- before them, in texts without blanks at the ends, is accepted with both or with none of them,
  -- and gives the same bitrate.
  pub parse_bitrate_case :
      (s : Text) (c d m : ℕ)
      → scale_of c ≡ some m
      → scale_of d ≡ some m
      → parser.trim (s ++ (c ∷ [])) ≡ s ++ (c ∷ [])
      → parser.trim (s ++ (d ∷ [])) ≡ s ++ (d ∷ [])
      → accepted (parse_bitrate fl parser (s ++ (c ∷ [])))
        ≡ accepted (parse_bitrate fl parser (s ++ (d ∷ [])))
  unfolding parse_bitrate
  parse_bitrate_case s c d m ec ed tc td =
      rw (tc, td, number_and_scale-append s c m ec, number_and_scale-append s d m ed)
        (accepted-scaled (s ++ (c ∷ [])) (s ++ (d ∷ [])) m (parser.parse (parser.trim s)))

  scaled_sound :
      (s : Text) (m : ℕ) (o : Option fl.F) (n : ℕ)
      → scaled fl parser s m o ≡ bitrate n
      → (v : fl.F) × (o ≡ some v)
        × (fl.lt v (fl.of_u64 0) ≡ false)
        × (n ≡ fl.to_u64 (fl.mul v (fl.of_u64 m)))
  scaled_sound s m none n e = cc
  scaled_sound s m (some v) n e = elim (Bool-cases (fl.lt v (fl.of_u64 0))) [
    | inl below ↦ absurd (ground arith)
    | inr fine ↦ (v, refl, fine, ground arith)
  ]

  Scale-with_scale :
      (s front : Text) (last : ℕ)
      → s ≡ front ++ (last ∷ [])
      → Scale s (with_scale s front (scale_of last)).0 (with_scale s front (scale_of last)).1
  Scale-with_scale s front last e = elim (Suffix-scale_of last) [
    | inl (m, worth, is) ↦ rw is (inr (last, e, worth))
    | inr (other, is) ↦ rw is (inl (refl, refl, inr (front, last, e, other)))
  ]

  Scale-with_last :
      (s : Text) (o : Option (Text × ℕ))
      → split_last s ≡ o
      → Scale s (with_last s o).0 (with_last s o).1
  Scale-with_last s none e = inl (refl, refl, inl (split_last-none s e))
  Scale-with_last s (some (front, last)) e =
      Scale-with_scale s front last (split_last-some s front last e)

  -- Whatever text is accepted as a bitrate: of the text without blanks at its ends, either the
  -- whole is the number and it ends in no suffix, or its last character is K, M or G in either case,
  -- for a thousand, a million or 10^9, and the number comes before it; the number, again without
  -- blanks, is a f64 not below 0.0, and the bitrate is that value times the multiplier, converted
  -- to u64.
  pub parse_bitrate_sound :
      (text : Text) (n : ℕ)
      → parse_bitrate fl parser text ≡ bitrate n
      → (number : Text) × (m : ℕ) × (v : fl.F) × Scale (parser.trim text) number m
        × (parser.parse (parser.trim number) ≡ some v)
        × (fl.lt v (fl.of_u64 0) ≡ false)
        × (n ≡ fl.to_u64 (fl.mul v (fl.of_u64 m)))
  unfolding parse_bitrate
  parse_bitrate_sound text n e =
      let s = parser.trim text in
      let (number, m) = number_and_scale s in
      let r = scaled_sound s m (parser.parse (parser.trim number)) n e in
      (number, m, r.0, Scale-with_last s (split_last s) refl, r.1, r.2, r.3)
