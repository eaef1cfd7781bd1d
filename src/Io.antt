-- ===== src/Io.antt =====
-- `std::io`: errors by kind and text, and fallible actions on a state that is kept on errors.
use andri.Common.{String, ◌≡◌, refl, ◌⊎◌, inl, inr}

pub data ErrorKind : Type 0 where
  invalid_data unexpected_eof other : ErrorKind

pub data IoError : Type 0 where
  new : ErrorKind → String → IoError

pub data IoResult {ℓ} (A : Type ℓ) : Type ℓ where
  ok : A → IoResult A
  err : IoError → IoResult A

-- What an `async fn` does to the object behind its `&mut` argument.
abbrev pub Io : Type 0 → Type 0 → Type 0
Io S A = S → IoResult A × S

abbrev pub on_ok : {S A B : Type 0} → IoResult A × S → (A → Io S B) → IoResult B × S
on_ok (ok a, s) f = f a s
on_ok (err e, s) f = (err e, s)

-- The `?` operator.
infixl 5 ◌>>=◌ ◌>>◌
abbrev pub ◌>>=◌ : {S A B : Type 0} → Io S A → (A → Io S B) → Io S B
◌>>=◌ m f s = on_ok (m s) f

abbrev pub ◌>>◌ : {S B : Type 0} → Io S (Unit {0}) → Io S B → Io S B
◌>>◌ m k s = on_ok (m s) (λ _. k)

abbrev pub return : {S A : Type 0} → A → Io S A
return a s = (ok a, s)

abbrev pub throw : {S A : Type 0} → IoError → Io S A
throw e s = (err e, s)

abbrev pub lift : {S A : Type 0} → IoResult A → Io S A
lift r s = (r, s)

pub IoResult-cases {ℓ} :
    {A : Type ℓ} (r : IoResult A) → ((a : A) × (r ≡ ok a)) ⊎ ((e : IoError) × (r ≡ err e))
IoResult-cases (ok a) = inl (a, refl)
IoResult-cases (err e) = inr (e, refl)
