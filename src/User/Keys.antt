-- ===== src/User/Keys.antt =====
-- The loop of `resolvePublicKeys` over the lines of a secret.
pub mod Format
pub mod Laws
use sftpgo_operator.Base.{String, Bool, List, [], ◌∷◌, not, ◌&&◌, if◌then◌else◌}
use sftpgo_operator.Base.Text.{is_empty, trim_space, split_lines, has_prefix}

-- `k != "" && !strings.HasPrefix(k, "#")`
unfoldable pub is_key : String → Bool
unfolding has_prefix
is_key k = not (is_empty k) && not (has_prefix k "#")

unfoldable pub collect_keys : List String → List String
unfolding trim_space is_key
collect_keys [] = []
collect_keys (k ∷ keys) =
    let rest = collect_keys keys in
    let trimmed = trim_space k in if is_key trimmed then trimmed ∷ rest else rest

unfoldable pub parse_keys : String → List String
unfolding split_lines collect_keys
parse_keys raw = collect_keys (split_lines raw)
