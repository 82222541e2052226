-- ===== src/Copies/Separate.antt =====
-- What a copy shares with its original.
use sftpgo_operator.Base.{
  ℕ, suc, ◌≤◌, ◌<◌, ◌≡◌, refl, Bool, true, false, not, ◌&&◌, ◌||◌, some, List, [], ◌∷◌, arith,
  nat_eq, ap, subst, sym, ◌∙◌,
}
use sftpgo_operator.Copies.Memory.{
  Ref, nil, at, Copied, as_object, deep_copy_object, new_copy, target, addresses_at,
}
use sftpgo_operator.Copies.Laws.{Span, IsDeep}

abbrev pub member : ℕ → List ℕ → Bool
member a [] = false
member a (b ∷ l) = nat_eq a b || member a l

abbrev pub distinct : List ℕ → Bool
distinct [] = true
distinct (a ∷ l) = not (member a l) && distinct l

abbrev pub apart : List ℕ → List ℕ → Bool
apart [] m = true
apart (a ∷ l) m = not (member a m) && apart l m

-- All addresses are in use where `n` is the first that is not.
abbrev pub Below : ℕ → List ℕ → Type 0
Below n [] = Unit
Below n (a ∷ l) = (a < n) × Below n l

-- The copy has the value of the original, refers to no address twice, and to none of the original.
pub record IsSeparate {A V : Type 0} (S : Copied A V) (original copy : Ref A) : Type 0 where
  pub same_value : target S.value copy ≡ target S.value original
  pub no_sharing_inside : distinct (addresses_at S.addresses copy) ≡ true
  pub no_sharing : apart (addresses_at S.addresses copy) (addresses_at S.addresses original) ≡ true

Span-member : (low high a : ℕ) (l : List ℕ) → a < low → Span low high l → member a l ≡ false
Span-member low high a [] h s = refl
Span-member low high a (b ∷ l) h (k, s) = ground (arith, Span-member (suc b) high a l)

Span-distinct : (low high : ℕ) (l : List ℕ) → Span low high l → distinct l ≡ true
Span-distinct low high [] s = refl
Span-distinct low high (a ∷ l) (h, s) =
    ground (arith, Span-member (suc a) high a l, Span-distinct (suc a) high l)

Below-member : (n a : ℕ) (l : List ℕ) → n ≤ a → Below n l → member a l ≡ false
Below-member n a [] h s = refl
Below-member n a (b ∷ l) h (k, s) = ground (arith, Below-member n a l)

-- No address is less than a bound.
abbrev pub Above : ℕ → List ℕ → Type 0
Above n [] = Unit
Above n (a ∷ l) = (n ≤ a) × Above n l

pub Span-Above : (n low high : ℕ) (l : List ℕ) → n ≤ low → Span low high l → Above n l
Span-Above n low high [] h s = tt
Span-Above n low high (a ∷ l) h (k, s) = (omega arith, Span-Above n (suc a) high l (omega arith) s)

pub Span-bounds : (low high : ℕ) (l : List ℕ) → Span low high l → low ≤ high
Span-bounds low high [] h = h
Span-bounds low high (a ∷ l) (h, s) = let k = Span-bounds (suc a) high l s in omega arith

pub Above-apart : (n : ℕ) (l m : List ℕ) → Above n l → Below n m → apart l m ≡ true
Above-apart n [] m s b = refl
Above-apart n (a ∷ l) m (h, s) b = ground (arith, Below-member n a m, Above-apart n l m s b)

pub new_copy-IsSeparate :
    {A V : Type 0} (S : Copied A V)
    → IsDeep S
    → (p : Ref A) (n : ℕ) → Below n (addresses_at S.addresses p)
    → IsSeparate S p (new_copy S.deep_copy_into p n).0
new_copy-IsSeparate S deep nil n below = record {
  same_value = refl;
  no_sharing_inside = refl;
  no_sharing = refl;
}
new_copy-IsSeparate S deep (at p a) n below =
    let (s, v) = deep a (suc n) in
    let high = (S.deep_copy_into a (suc n)).1 in
    let l = addresses_at S.addresses (new_copy S.deep_copy_into (at p a) n).0 in
    let span : Span n high l = (omega arith, s) in
    record {
      same_value = ap some v;
      no_sharing_inside = Span-distinct n high l span;
      no_sharing =
          Above-apart n l (addresses_at S.addresses (at p a))
            (Span-Above n n high l (omega arith) span) below;
    }

module _ {A V : Type 0} (S : Copied A V) where
  deep_copy_object-deep_copy :
      (p : Ref A) (n : ℕ) → (deep_copy_object S p n).0 ≡ (S.deep_copy p n).0
  deep_copy_object-deep_copy p n = go (S.deep_copy p n).0 (S.deep_copy p n).1
    where
      go : (q : Ref A) (m : ℕ) → (as_object q m).0 ≡ q
      go nil m = refl
      go (at o a) m = refl

  pub deep_copy_object-IsSeparate :
      IsDeep S
      → (p : Ref A) (n : ℕ) → S.deep_copy p n ≡ new_copy S.deep_copy_into p n
      → Below n (addresses_at S.addresses p)
      → IsSeparate S p (deep_copy_object S p n).0
  deep_copy_object-IsSeparate deep p n by_into below =
      subst (IsSeparate S p) (sym (deep_copy_object-deep_copy p n ∙ ap (λ x. x.0) by_into))
        (new_copy-IsSeparate S deep p n below)
