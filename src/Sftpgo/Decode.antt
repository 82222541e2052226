-- ===== src/Sftpgo/Decode.antt =====
-- `json.Decoder.Decode` into the two structs that the client reads. Keys match without regard to
-- case, keys that no field has are skipped, `null` sets nothing, and a value of another type or
-- out of range fails. A slice is built afresh, a map keeps its other entries.
use Prim.Native.Char.{code}
use sftpgo_operator.Base.{
  ℕ, ◌+◌, String, Bool, true, false, ◌&&◌, List, [], ◌∷◌, ℤ, pos, in_int64, Error, Result, ok, err,
  leb, nat_eq, ◌==◌, if◌then◌else◌,
}
use sftpgo_operator.Base.Text.{Dict}
use sftpgo_operator.Sftpgo.Json.{
  Json, null, int, str, arr, obj, Items, nil, cons, Fields, close, field,
}
use sftpgo_operator.Sftpgo.Payload.{Vf, Gm, UserPayload, zero_payload}

-- The letters of a field's name and their cases, also U+212A for k and U+017F for s.
lower : ℕ → ℕ
lower n =
    if leb b'A' n && leb n b'Z'
    then n + 32
    else if nat_eq n 0x212a
    then b'k'
    else if nat_eq n 0x17f
    then b's'
    else n

unfoldable pub equal_fold : String → String → Bool
unfolding lower
equal_fold String.[] String.[] = true
equal_fold String.[] (String.◌∷◌ d t) = false
equal_fold (String.◌∷◌ c s) String.[] = false
equal_fold (String.◌∷◌ c s) (String.◌∷◌ d t) =
    nat_eq (lower (code c)) (lower (code d)) && equal_fold s t

abbrev pub type_error : Error
type_error = record { is_not_found = false; message = "json: cannot unmarshal" }

-- Each decoder is given the value that the field holds.
abbrev pub into_string : Json → String → Result String
into_string (str s) old = ok s
into_string null old = ok old
into_string _ old = err type_error

abbrev pub into_int : Json → ℤ → Result ℤ
into_int (int n) old = if in_int64 n then ok n else err type_error
into_int null old = ok old
into_int _ old = err type_error

abbrev pub and_then {ℓ κ} : {A : Type ℓ} {B : Type κ} → Result A → (A → Result B) → Result B
and_then (ok a) f = f a
and_then (err e) f = err e

module _ {A : Type 0} where
  unfoldable pub into_items : (Json → Result A) → Items → Result (List A)
  into_items f nil = ok []
  into_items f (cons j l) = and_then (f j) λ a. and_then (into_items f l) λ rest. ok (a ∷ rest)

  abbrev pub into_list : (Json → Result A) → Json → List A → Result (List A)
  into_list f (arr l) old = into_items f l
  into_list f null old = ok []
  into_list f _ old = err type_error

  -- The fields of an object, one after the other.
  unfoldable pub into_fields : (String → Json → A → Result A) → Fields → A → Result A
  into_fields f close a = ok a
  into_fields f (field key j rest) a = and_then (f key j a) (into_fields f rest)

  abbrev pub into_struct : (String → Json → A → Result A) → Json → A → Result A
  into_struct f (obj fields) old = into_fields f fields old
  into_struct f null old = ok old
  into_struct f _ old = err type_error

abbrev pub into_strings : Json → List String → Result (List String)
into_strings = into_list (λ j. into_string j "")

-- `m[key] = value`
unfoldable pub set_entry {ℓ} : {V : Type ℓ} → String → V → Dict V → Dict V
set_entry k v [] = (k, v) ∷ []
set_entry k v ((j, w) ∷ m) = if j == k then (k, v) ∷ m else (j, w) ∷ set_entry k v m

abbrev pub set_permission : String → Json → Dict (List String) → Result (Dict (List String))
set_permission path j m = and_then (into_strings j []) λ l. ok (set_entry path l m)

abbrev pub into_permissions : Json → Dict (List String) → Result (Dict (List String))
into_permissions null old = ok []
into_permissions j old = into_struct set_permission j old

unfoldable pub set_folder_field : String → Json → Vf → Result Vf
unfolding equal_fold
set_folder_field key j v =
    if equal_fold key "virtual_path"
    then and_then (into_string j v.virtual_path) (λ x. ok (record v { virtual_path = x }))
    else if equal_fold key "mapped_path"
    then and_then (into_string j v.mapped_path) (λ x. ok (record v { mapped_path = x }))
    else if equal_fold key "quota_size"
    then and_then (into_int j v.quota_size) (λ x. ok (record v { quota_size = x }))
    else if equal_fold key "quota_files"
    then and_then (into_int j v.quota_files) (λ x. ok (record v { quota_files = x }))
    else ok v

abbrev pub zero_folder : Vf
zero_folder = record {
  virtual_path = "";
  mapped_path = "";
  quota_size = pos 0;
  quota_files = pos 0;
}

unfoldable pub set_member_field : String → Json → Gm → Result Gm
unfolding equal_fold
set_member_field key j g =
    if equal_fold key "name"
    then and_then (into_string j g.name) (λ x. ok (record g { name = x }))
    else if equal_fold key "type"
    then and_then (into_int j g.type) (λ x. ok (record g { type = x }))
    else ok g

abbrev pub zero_member : Gm
zero_member = record { name = ""; type = pos 0 }

unfoldable pub set_payload_field : String → Json → UserPayload → Result UserPayload
unfolding equal_fold set_folder_field set_member_field into_items into_fields
set_payload_field key j p =
    if equal_fold key "id"
    then and_then (into_int j p.id) (λ x. ok (record p { id = x }))
    else if equal_fold key "username"
    then and_then (into_string j p.username) (λ x. ok (record p { username = x }))
    else if equal_fold key "status"
    then and_then (into_int j p.status) (λ x. ok (record p { status = x }))
    else if equal_fold key "email"
    then and_then (into_string j p.email) (λ x. ok (record p { email = x }))
    else if equal_fold key "password"
    then and_then (into_string j p.password) (λ x. ok (record p { password = x }))
    else if equal_fold key "public_keys"
    then and_then (into_strings j p.public_keys) (λ x. ok (record p { public_keys = x }))
    else if equal_fold key "home_dir"
    then and_then (into_string j p.home_dir) (λ x. ok (record p { home_dir = x }))
    else if equal_fold key "virtual_folders"
    then and_then (into_list (λ i. into_struct set_folder_field i zero_folder) j p.virtual_folders)
        (λ x. ok (record p { virtual_folders = x }))
    else if equal_fold key "permissions"
    then and_then (into_permissions j p.permissions) (λ x. ok (record p { permissions = x }))
    else if equal_fold key "quota_size"
    then and_then (into_int j p.quota_size) (λ x. ok (record p { quota_size = x }))
    else if equal_fold key "quota_files"
    then and_then (into_int j p.quota_files) (λ x. ok (record p { quota_files = x }))
    else if equal_fold key "upload_bandwidth"
    then and_then (into_int j p.upload_bandwidth) (λ x. ok (record p { upload_bandwidth = x }))
    else if equal_fold key "download_bandwidth"
    then and_then (into_int j p.download_bandwidth) (λ x. ok (record p { download_bandwidth = x }))
    else if equal_fold key "max_sessions"
    then and_then (into_int j p.max_sessions) (λ x. ok (record p { max_sessions = x }))
    else if equal_fold key "allowed_ip"
    then and_then (into_strings j p.allowed_ip) (λ x. ok (record p { allowed_ip = x }))
    else if equal_fold key "denied_ip"
    then and_then (into_strings j p.denied_ip) (λ x. ok (record p { denied_ip = x }))
    else if equal_fold key "groups"
    then and_then (into_list (λ i. into_struct set_member_field i zero_member) j p.groups)
        (λ x. ok (record p { groups = x }))
    else ok p

unfoldable pub decode_payload : Json → Result UserPayload
unfolding set_payload_field
decode_payload j = into_struct set_payload_field j zero_payload

pub record TokenResponse : Type 0 where
  pub access_token : String
  pub expires_at : String

unfoldable pub set_token_field : String → Json → TokenResponse → Result TokenResponse
unfolding equal_fold
set_token_field key j t =
    if equal_fold key "access_token"
    then and_then (into_string j t.access_token) (λ x. ok (record t { access_token = x }))
    else if equal_fold key "expires_at"
    then and_then (into_string j t.expires_at) (λ x. ok (record t { expires_at = x }))
    else ok t

unfoldable pub decode_token : Json → Result TokenResponse
unfolding set_token_field into_fields
decode_token j = into_struct set_token_field j (record { access_token = ""; expires_at = "" })
