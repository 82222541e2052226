-- ===== src/User/Keys/Laws.antt =====
-- What `resolvePublicKeys` takes from a secret.
use Prim.Native.Char.{Char}
use Prim.Native.String.append
use sftpgo_operator.Base.{
  String, ◌<>◌, true, false, not, List, [], ◌∷◌, ◌≡◌, refl, ◌∙◌, ap, arith, All, map, Bool-cases,
  &&-eq-true, inl, inr,
}
use sftpgo_operator.Base.Text.{
  is_space, trim_left, trim_right, trim_space, split_lines, extend_first,
}
use sftpgo_operator.User.Keys.{is_key, collect_keys, parse_keys}
use sftpgo_operator.User.Keys.Format.{
  every, is_newline, IsSpaces, OnOneLine, ends_in_space, IsKey, Line, entry, comment, blank, text,
  IsLine, keys_of, join, file,
}

trim_left-OnOneLine : (s : String) → OnOneLine s → OnOneLine (trim_left s)
unfolding trim_left
trim_left-OnOneLine String.[] h = refl
trim_left-OnOneLine (String.◌∷◌ c s) h = ground (arith, trim_left-OnOneLine s)

trim_right-OnOneLine : (s : String) → OnOneLine s → OnOneLine (trim_right s)
unfolding trim_right
trim_right-OnOneLine String.[] h = refl
trim_right-OnOneLine (String.◌∷◌ c s) h = ground (arith, trim_right-OnOneLine s)

trim_right-ends : (s : String) → ends_in_space (trim_right s) ≡ false
unfolding trim_right
trim_right-ends String.[] = refl
trim_right-ends (String.◌∷◌ c s) = ground (arith, trim_right-ends s)

-- The first character of a trimmed text is no white space.
abbrev StartsWell : String → Type 0
StartsWell String.[] = Unit
StartsWell (String.◌∷◌ c s) = is_space c ≡ false

trim_left-StartsWell : (s : String) → StartsWell (trim_left s)
unfolding trim_left
trim_left-StartsWell String.[] = tt
trim_left-StartsWell (String.◌∷◌ c s) = ground (arith, trim_left-StartsWell s)

trim_right-StartsWell : (s : String) → StartsWell s → StartsWell (trim_right s)
unfolding trim_right
trim_right-StartsWell String.[] h = tt
trim_right-StartsWell (String.◌∷◌ c s) h = ground arith

is_key-IsKey : (s : String) → StartsWell s → ends_in_space s ≡ false → is_key s ≡ true → IsKey s
unfolding is_key
is_key-IsKey String.[] w e h = cc
is_key-IsKey (String.◌∷◌ c s) w e h = ground arith

is_key_of_IsKey : (s : String) → IsKey s → is_key s ≡ true
unfolding is_key
is_key_of_IsKey String.[] h = absurd h
is_key_of_IsKey (String.◌∷◌ c s) h = ground arith

trim_space-IsKey : (s : String) → is_key (trim_space s) ≡ true → IsKey (trim_space s)
unfolding trim_space
trim_space-IsKey s h =
    is_key-IsKey (trim_right (trim_left s))
      (trim_right-StartsWell (trim_left s) (trim_left-StartsWell s)) (trim_right-ends (trim_left s))
      h

abbrev AllOnOneLine : List String → Type 0
AllOnOneLine = All OnOneLine

extend_first-AllOnOneLine :
    (c : Char) (lines : List String)
    → is_newline c ≡ false
    → AllOnOneLine lines
    → AllOnOneLine (extend_first c lines)
extend_first-AllOnOneLine c [] h a = ground arith
extend_first-AllOnOneLine c (l ∷ lines) h a = ground arith

split_lines-AllOnOneLine : (s : String) → AllOnOneLine (split_lines s)
unfolding split_lines
split_lines-AllOnOneLine String.[] = (refl, tt)
split_lines-AllOnOneLine (String.◌∷◌ c s) = elim (Bool-cases (is_newline c)) [
  | inl e ↦ rw e (refl, split_lines-AllOnOneLine s)
  | inr e ↦ rw e (extend_first-AllOnOneLine c (split_lines s) e (split_lines-AllOnOneLine s))
]

abbrev AllKeys : List String → Type 0
AllKeys = All λ k. IsKey k × OnOneLine k

collect_keys-AllKeys : (lines : List String) → AllOnOneLine lines → AllKeys (collect_keys lines)
unfolding collect_keys trim_space
collect_keys-AllKeys [] h = tt
collect_keys-AllKeys (l ∷ lines) h = elim (Bool-cases (is_key (trim_space l))) [
  | inl e ↦ rw e (
    (trim_space-IsKey l e, trim_right-OnOneLine (trim_left l) (trim_left-OnOneLine l h.0)),
    collect_keys-AllKeys lines h.1,
  )
  | inr e ↦ rw e (collect_keys-AllKeys lines h.1)
]

-- Whatever a secret holds, each key taken from it is not empty, begins neither with white space
-- nor with `#`, does not end in white space, and has no newline in it.
pub parse_keys-AllKeys : (raw : String) → All (λ k. IsKey k × OnOneLine k) (parse_keys raw)
unfolding parse_keys
parse_keys-AllKeys raw = collect_keys-AllKeys (split_lines raw) (split_lines-AllOnOneLine raw)

-- Reading back: from the writer's lines to the keys.
trim_left-append : (b s : String) → IsSpaces b → trim_left (b <> s) ≡ trim_left s
unfolding trim_left
trim_left-append String.[] s h = rw append.nil
trim_left-append (String.◌∷◌ c b) s h = rw append.cons (ground (arith, trim_left-append b s))

trim_right-spaces : (s : String) → IsSpaces s → trim_right s ≡ String.[]
unfolding trim_right
trim_right-spaces String.[] h = refl
trim_right-spaces (String.◌∷◌ c s) h =
    let (first, rest) = &&-eq-true (is_space c) (every is_space s) h in
    rw (trim_right-spaces s rest, first)

trim_right-append : (k a : String) → ends_in_space k ≡ false → IsSpaces a → trim_right (k <> a) ≡ k
unfolding trim_right
trim_right-append String.[] a e h = rw append.nil (trim_right-spaces a h)
trim_right-append (String.◌∷◌ c String.[]) a e h =
    rw (append.cons, append.nil) (ground (arith, trim_right-spaces a))
trim_right-append (String.◌∷◌ c (String.◌∷◌ d s)) a e h =
    rw append.cons (ground (arith, trim_right-append (String.◌∷◌ d s) a))

trim_space_of_entry :
    (b k a : String) → IsSpaces b → IsKey k → IsSpaces a → trim_space (b <> (k <> a)) ≡ k
unfolding trim_space trim_left
trim_space_of_entry b String.[] a hb hk ha = absurd hk
trim_space_of_entry b (String.◌∷◌ c s) a hb hk ha =
    rw (trim_left-append b (String.◌∷◌ c s <> a) hb, append.cons, hk.1)
      (rw append.cons at (trim_right-append (String.◌∷◌ c s) a hk.2 ha))

-- A trimmed comment still begins with `#`.
trim_space_of_comment : (b w : String) → IsSpaces b → is_key (trim_space (b <> ("#" <> w))) ≡ false
unfolding trim_space trim_left trim_right is_key is_space
trim_space_of_comment b w h = rw (trim_left-append b ("#" <> w) h, append.cons)

trim_left-spaces : (s : String) → IsSpaces s → trim_left s ≡ String.[]
unfolding trim_left
trim_left-spaces String.[] h = refl
trim_left-spaces (String.◌∷◌ c s) h =
    let (first, rest) = &&-eq-true (is_space c) (every is_space s) h in
    rw (trim_left-spaces s rest, first)

trim_space_of_blank : (s : String) → IsSpaces s → is_key (trim_space s) ≡ false
unfolding trim_space is_key trim_right
trim_space_of_blank s h = rw (trim_left-spaces s h)

split_lines-one : (l : String) → OnOneLine l → split_lines l ≡ l ∷ []
unfolding split_lines
split_lines-one String.[] h = refl
split_lines-one (String.◌∷◌ c l) h =
    let (first, rest) = &&-eq-true (not (is_newline c)) _ h in
    rw (split_lines-one l rest) (ground arith)

split_lines-append :
    (l rest : String) → OnOneLine l → split_lines (l <> ("\n" <> rest)) ≡ l ∷ split_lines rest
unfolding split_lines
split_lines-append String.[] rest h = rw (append.nil, append.cons, append.nil) refl
split_lines-append (String.◌∷◌ c l) rest h =
    let (first, later) = &&-eq-true (not (is_newline c)) _ h in
    rw (append.cons, split_lines-append l rest later) (ground arith)

split_lines-join :
    (l : String) (lines : List String)
    → AllOnOneLine (l ∷ lines)
    → split_lines (join (l ∷ lines)) ≡ l ∷ lines
split_lines-join l [] h = split_lines-one l h.0
split_lines-join l (m ∷ lines) h =
    split_lines-append l (join (m ∷ lines)) h.0 ∙ ap (λ r. l ∷ r) (split_lines-join m lines h.1)

IsLine-text : (l : Line) → IsLine l → OnOneLine (text l)
IsLine-text (entry b k a) h = h.3
IsLine-text (comment b w) h = h.1
IsLine-text (blank s) h = h.1

texts-AllOnOneLine : (lines : List Line) → All IsLine lines → AllOnOneLine (map text lines)
texts-AllOnOneLine [] h = tt
texts-AllOnOneLine (l ∷ lines) h = (IsLine-text l h.0, texts-AllOnOneLine lines h.1)

collect_keys-texts :
    (lines : List Line) → All IsLine lines → collect_keys (map text lines) ≡ keys_of lines
unfolding collect_keys
collect_keys-texts [] h = refl
collect_keys-texts (entry b k a ∷ lines) h =
    rw (trim_space_of_entry b k a h.0.0 h.0.1 h.0.2, is_key_of_IsKey k h.0.1)
      (ap (λ r. k ∷ r) (collect_keys-texts lines h.1))
collect_keys-texts (comment b w ∷ lines) h =
    rw (trim_space_of_comment b w h.0.0) (collect_keys-texts lines h.1)
collect_keys-texts (blank s ∷ lines) h =
    rw (trim_space_of_blank s h.0.0) (collect_keys-texts lines h.1)

-- From a file of keys, comments and blank lines, in any order and with any white space around
-- them, the program takes exactly the keys, in the order of the file.
pub parse_keys-file :
    (lines : List Line) → All IsLine lines → parse_keys (file lines) ≡ keys_of lines
unfolding parse_keys
parse_keys-file [] h = refl
parse_keys-file (l ∷ lines) h =
    rw (split_lines-join (text l) (map text lines) (texts-AllOnOneLine (l ∷ lines) h))
      (collect_keys-texts (l ∷ lines) h)
