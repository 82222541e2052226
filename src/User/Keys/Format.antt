-- ===== src/User/Keys/Format.antt =====
-- The format of a file of public keys, described from the writer's side: a list of lines, and what
-- a key is.
use Prim.Native.Char.{Char, code}
use sftpgo_operator.Base.{
  String, ◌<>◌, Bool, true, false, not, ◌&&◌, List, [], ◌∷◌, ◌≡◌, ◌≢◌, ℕ, map, nat_eq,
  if◌then◌else◌,
}
use sftpgo_operator.Base.Text.{is_space, is_empty}

-- Each character of a text passes the test.
abbrev pub every : (Char → Bool) → String → Bool
every p String.[] = true
every p (String.◌∷◌ c s) = p c && every p s

abbrev pub is_newline : Char → Bool
is_newline c = nat_eq (code c) 10

abbrev pub IsSpaces : String → Type 0
IsSpaces s = every is_space s ≡ true

abbrev pub OnOneLine : String → Type 0
OnOneLine s = every (λ c. not (is_newline c)) s ≡ true

abbrev pub ends_in_space : String → Bool
ends_in_space String.[] = false
ends_in_space (String.◌∷◌ c s) = if is_empty s then is_space c else ends_in_space s

-- A key is not empty, begins neither with white space nor with `#`, and does not end in white space.
abbrev pub IsKey : String → Type 0
IsKey String.[] = ⊥
IsKey (String.◌∷◌ c s) =
    (◌≢◌ {A = ℕ} (code c) 35) × (is_space c ≡ false) × (ends_in_space (String.◌∷◌ c s) ≡ false)

-- A line of the file: a key or a comment with white space around it, or nothing but white space.
pub data Line : Type 0 where
  entry : String → String → String → Line
  comment : String → String → Line
  blank : String → Line

abbrev pub text : Line → String
text (entry before k after) = before <> (k <> after)
text (comment before words) = before <> ("#" <> words)
text (blank spaces) = spaces

abbrev pub IsLine : Line → Type 0
IsLine (entry before k after) =
    IsSpaces before × IsKey k × IsSpaces after × OnOneLine (before <> (k <> after))
IsLine (comment before words) = IsSpaces before × OnOneLine (before <> ("#" <> words))
IsLine (blank spaces) = IsSpaces spaces × OnOneLine spaces

-- The keys of the file, in their order.
abbrev pub keys_of : List Line → List String
keys_of [] = []
keys_of (entry before k after ∷ lines) = k ∷ keys_of lines
keys_of (comment before words ∷ lines) = keys_of lines
keys_of (blank spaces ∷ lines) = keys_of lines

-- The lines with a newline between any two.
abbrev pub join : List String → String
join [] = ""
join (l ∷ []) = l
join (l ∷ m ∷ lines) = l <> ("\n" <> join (m ∷ lines))

abbrev pub file : List Line → String
file lines = join (map text lines)
