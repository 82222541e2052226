-- ===== src/Base/State.antt =====
-- Go functions that change a state and return `(value, error)`. What was changed before an error
-- stays changed, so the state comes back beside the error too.
use Prim.Native.String.{String}
use mathlib.Core.Path.{◌≡◌, refl, fun_ext, sym, ap, ◌∙◌}
use native.Mathlib.Omega.{arith}
use mathlib.Core.Logic.{◌≢◌, ◌⊎◌, inl, inr}
use mathlib.Core.Bool.{Bool}

-- `errors.IsNotFound(err)` and `err.Error()` are all that the program asks of an error.
pub record Error : Type 0 where
  pub is_not_found : Bool
  pub message : String

pub data Result {ℓ} (A : Type ℓ) : Type ℓ where
  ok : A → Result A
  err : Error → Result A

pub Result-cases {ℓ} :
    {A : Type ℓ} (r : Result A) → ((a : A) × (r ≡ ok a)) ⊎ ((e : Error) × (r ≡ err e))
Result-cases (ok a) = inl (a, refl)
Result-cases (err e) = inr (e, refl)

pub ok_inj {ℓ} : {A : Type ℓ} {a b : A} → ok a ≡ ok b → a ≡ b
ok_inj h = ground arith

pub err-ne-ok {ℓ} : {A : Type ℓ} (e : Error) (a : A) → err e ≢ ok a
err-ne-ok e a h = ground arith

abbrev pub Exec {ℓ} : Type ℓ → Type ℓ → Type ℓ
Exec S A = S → Result A × S

module _ {ℓ} {S A : Type ℓ} where
  abbrev pub pure : A → Exec S A
  pure a s = (ok a, s)

  abbrev pub raise : Error → Exec S A
  raise e s = (err e, s)

  abbrev pub lift : Result A → Exec S A
  lift r s = (r, s)

  -- The error as a value, for a caller that inspects it.
  abbrev pub attempt : Exec S A → Exec S (Result A)
  attempt m s = let (r, s') = m s in (ok r, s')

module _ {ℓ} {S A B : Type ℓ} where
  abbrev pub continue : Result A → (A → Exec S B) → Exec S B
  continue (ok a) f s = f a s
  continue (err e) f s = (err e, s)

  infixl 10 ◌>>=◌ ◌>>◌
  abbrev pub ◌>>=◌ : Exec S A → (A → Exec S B) → Exec S B
  ◌>>=◌ m f s = let (r, s') = m s in continue r f s'

  abbrev pub ◌>>◌ : Exec S A → Exec S B → Exec S B
  m >> n = m >>= λ _. n

module _ {ℓ} {S A B : Type ℓ} where
  -- The last call of a chain leaves the state, whatever its answer.
  pub continue-pure : (r : Result A) (b : B) (s : S) → (continue r (λ _. pure b) s).1 ≡ s
  continue-pure (ok a) b s = refl
  continue-pure (err e) b s = refl

  -- A chain that succeeds has gone by its first part.
  pub >>=_ok :
      (m : Exec S A) (f : A → Exec S B) (s : S) {b : B}
      → ((m >>= f) s).0 ≡ ok b
      → (a : A) × ((m s).0 ≡ ok a) × ((m >>= f) s ≡ f a (m s).1)
  >>=_ok m f s h = elim (Result-cases (m s).0) [
    | inl (a, k) ↦ (a, k, rw k refl)
    | inr (e, k) ↦ ground arith
  ]

  -- And one that ends in an error does not succeed.
  pub >>-raise : (m : Exec S A) (e : Error) (s : S) (b : B) → ((m >> raise e) s).0 ≢ ok b
  >>-raise m e s b h =
      let (a, k, p) = >>=_ok m (λ _. raise e) s h in
      let clash : err e ≡ ok b = ap (λ x. x.0) (sym p) ∙ h in ground arith

module _ {ℓ} {S A B C : Type ℓ} where
  pub >>=_assoc :
      (m : Exec S A) (f : A → Exec S B) (g : B → Exec S C)
      → ((m >>= f) >>= g) ≡ (m >>= λ a. f a >>= g)
  >>=_assoc m f g =
      fun_ext λ s. elim (Result-cases (m s).0) [ inl (a, h) ↦ rw h refl | inr (e, h) ↦ rw h refl ]
