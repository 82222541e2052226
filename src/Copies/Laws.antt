-- ===== src/Copies/Laws.antt =====
-- What a deep copy is, and the copies of fields.
use sftpgo_operator.Base.{ℕ, suc, ◌≤◌, ◌≡◌, refl, ap, List, [], ◌∷◌, ◌++◌, map, some, arith}
use sftpgo_operator.Copies.Memory.{
  nil, at, copy_each, Copied, addresses_in, flat, pointer, slice_of, slice,
}

-- Addresses that lie between two bounds, the upper one excluded, each greater than the one before.
abbrev pub Span : ℕ → ℕ → List ℕ → Type 0
Span low high [] = low ≤ high
Span low high (a ∷ l) = (low ≤ a) × Span (suc a) high l

lower-Span : (low low' high : ℕ) (l : List ℕ) → low ≤ low' → Span low' high l → Span low high l
lower-Span low low' high [] h s = omega arith
lower-Span low low' high (a ∷ l) h (below, s) = (omega arith, s)

pub ++-Span :
    (low middle high : ℕ) (l l' : List ℕ)
    → Span low middle l
    → Span middle high l'
    → Span low high (l ++ l')
++-Span low middle high [] l' h s = lower-Span low middle high l' h s
++-Span low middle high (a ∷ l) l' (h, s) s' = (h, ++-Span (suc a) middle high l l' s s')

-- A copy has the value of the original, and all that it refers to is new, and nothing twice.
abbrev pub IsDeep : {A V : Type 0} → Copied A V → Type 0
IsDeep {A} S =
    (a : A) (n : ℕ)
    → Span n (S.deep_copy_into a n).1 (S.addresses (S.deep_copy_into a n).0)
      × (S.value (S.deep_copy_into a n).0 ≡ S.value a)

pub flat-IsDeep : {A : Type 0} → IsDeep (flat {A = A})
flat-IsDeep a n = (omega arith, refl)

pub pointer-IsDeep : {A V : Type 0} (S : Copied A V) → IsDeep S → IsDeep (pointer S)
pointer-IsDeep S deep nil n = (omega arith, refl)
pointer-IsDeep S deep (at p a) n = let (s, v) = deep a (suc n) in ((omega arith, s), ap some v)

module _ {A V : Type 0} (S : Copied A V) (deep : IsDeep S) where
  copy_each-IsDeep :
      (l : List A) (n : ℕ)
      → Span n
          (copy_each S.deep_copy_into l n).1
          (addresses_in S.addresses (copy_each S.deep_copy_into l n).0)
        × (map S.value (copy_each S.deep_copy_into l n).0 ≡ map S.value l)
  copy_each-IsDeep [] n = (omega arith, refl)
  copy_each-IsDeep (a ∷ l) n =
      let (s, v) = deep a n in
      let (s', v') = copy_each-IsDeep l (S.deep_copy_into a n).1 in
      (++-Span _ _ _ _ _ s s', rw (v, v') refl)

  pub slice_of-IsDeep : IsDeep (slice_of S)
  slice_of-IsDeep nil n = (omega arith, refl)
  slice_of-IsDeep (at p l) n = let (s, v) = copy_each-IsDeep l (suc n) in ((omega arith, s), v)

pub slice-IsDeep : {A : Type 0} → IsDeep (slice {A = A})
slice-IsDeep nil n = (omega arith, refl)
slice-IsDeep (at p l) n = (omega arith, refl)
