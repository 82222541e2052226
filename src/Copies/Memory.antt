-- ===== src/Copies/Memory.antt =====
-- Go values with the addresses of what their pointers, slices and maps refer to. An assignment of
-- a struct keeps the addresses; `new` and `make` take addresses that were not in use.
use sftpgo_operator.Base.{ℕ, suc, List, [], ◌∷◌, ◌++◌, map, Option, none, some}

-- A reference: to nothing, or to what is stored at an address.
pub data Ref {ℓ} (A : Type ℓ) : Type ℓ where
  nil : Ref A
  at : ℕ → A → Ref A

-- A function that allocates; the state is the first address that is not in use.
abbrev pub Alloc {ℓ} : Type ℓ → Type ℓ
Alloc A = ℕ → A × ℕ

module _ {ℓ} {A B : Type ℓ} where
  infixl 10 ◌>>=◌
  abbrev pub ◌>>=◌ : Alloc A → (A → Alloc B) → Alloc B
  ◌>>=◌ m f n = let (a, n') = m n in f a n'

abbrev pub pure {ℓ} : {A : Type ℓ} → A → Alloc A
pure a n = (a, n)

abbrev pub alloc : Alloc ℕ
alloc n = (n, suc n)

module _ {A : Type 0} where
  -- `DeepCopy` by a `DeepCopyInto`, and the copy of a field that is a pointer.
  abbrev pub new_copy : (A → Alloc A) → Ref A → Alloc (Ref A)
  new_copy into nil = pure nil
  new_copy into (at p a) = do out ← alloc; copy ← into a; pure (at out copy)

  -- `for i := range *in { (*in)[i].DeepCopyInto(&(*out)[i]) }`
  abbrev pub copy_each : (A → Alloc A) → List A → Alloc (List A)
  copy_each into [] = pure []
  copy_each into (a ∷ l) = do copy ← into a; rest ← copy_each into l; pure (copy ∷ rest)

-- A type of Go with its methods, the value that it stands for, and the addresses that its values
-- refer to, in the order in which a copy allocates them.
pub record Copied (A V : Type 0) : Type 0 where
  pub value : A → V
  pub addresses : A → List ℕ
  pub deep_copy_into : A → Alloc A
  pub deep_copy : Ref A → Alloc (Ref A)

abbrev pub copied : {A V : Type 0} → (A → V) → (A → List ℕ) → (A → Alloc A) → Copied A V
copied value addresses into = record {
  value = value;
  addresses = addresses;
  deep_copy_into = into;
  deep_copy = new_copy into;
}

abbrev pub addresses_in : {A : Type 0} → (A → List ℕ) → List A → List ℕ
addresses_in addresses [] = []
addresses_in addresses (a ∷ l) = addresses a ++ addresses_in addresses l

-- `*out = *in` for a struct with no references.
abbrev pub flat : {A : Type 0} → Copied A A
flat = copied (λ a. a) (λ a. []) pure

abbrev pub target : {A V : Type 0} → (A → V) → Ref A → Option V
target value nil = none
target value (at p a) = some (value a)

abbrev pub addresses_at : {A : Type 0} → (A → List ℕ) → Ref A → List ℕ
addresses_at addresses nil = []
addresses_at addresses (at p a) = p ∷ addresses a

-- A field that is a pointer.
abbrev pub pointer : {A V : Type 0} → Copied A V → Copied (Ref A) (Option V)
pointer S = copied (target S.value) (addresses_at S.addresses) (new_copy S.deep_copy_into)

abbrev pub elements : {A V : Type 0} → (A → V) → Ref (List A) → List V
elements value nil = []
elements value (at p l) = map value l

-- A field that is a slice of structs with references.
abbrev pub slice_of : {A V : Type 0} → Copied A V → Copied (Ref (List A)) (List V)
slice_of S =
    copied (elements S.value) (addresses_at (addresses_in S.addresses))
      (new_copy (copy_each S.deep_copy_into))

abbrev pub items : {A : Type 0} → Ref (List A) → List A
items nil = []
items (at p l) = l

-- A field that is a slice of anything else, by `make` and `copy`, or a map, entry by entry.
abbrev pub slice : {A : Type 0} → Copied (Ref (List A)) (List A)
slice = copied items (addresses_at (λ l. [])) (new_copy pure)

-- `if c := in.DeepCopy(); c != nil { return c }; return nil`
abbrev pub as_object : {A : Type 0} → Ref A → Alloc (Ref A)
as_object nil = pure nil
as_object (at p a) = pure (at p a)

abbrev pub deep_copy_object : {A V : Type 0} → Copied A V → Ref A → Alloc (Ref A)
deep_copy_object S p = do c ← S.deep_copy p; as_object c
