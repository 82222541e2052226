-- ===== src/Sftpgo/Payload/Reading.antt =====
-- What the JSON decoder reads from each field of an encoded payload.
use sftpgo_operator.Base.{
  String, ◌≡◌, refl, ◌∙◌, ap, Bool, true, false, not, List, [], ◌∷◌, ℤ, pos, negsuc, is_zero,
  in_int64, nonempty, Result, ok, arith, eq_iff, ◌==◌, All,
}
use sftpgo_operator.Base.Text.{Dict}
use sftpgo_operator.Sftpgo.Json.{
  Json, int, str, obj, Fields, close, field, optional, items, strings,
}
use sftpgo_operator.Sftpgo.Payload.{
  Vf, Gm, UserPayload, encode_folder, encode_member, encode_permissions,
}
use sftpgo_operator.Sftpgo.Decode.{
  into_items, into_fields, into_struct, into_strings, set_folder_field, set_member_field,
  set_payload_field, zero_folder, zero_member, into_permissions, set_entry,
}

module _ {A : Type 0} (f : String → Json → A → Result A) where
  -- A field is read before the others.
  pub into_fields-field :
      (key : String) (j : Json) (rest : Fields) (a b : A)
      → f key j a ≡ ok b
      → into_fields f (field key j rest) a ≡ into_fields f rest b
  unfolding into_fields
  into_fields-field key j rest a b h = rw h refl

  pub into_fields-close : (a : A) → into_fields f close a ≡ ok a
  unfolding into_fields
  into_fields-close a = refl

  -- A field that is left out unless it is set.
  into_fields-optional :
      (set : Bool) (key : String) (j : Json) (rest : Fields) (a b : A)
      → (set ≡ true → f key j a ≡ ok b)
      → (set ≡ false → a ≡ b)
      → into_fields f (optional set key j rest) a ≡ into_fields f rest b
  into_fields-optional true key j rest a b given missing =
      into_fields-field key j rest a b (given refl)
  into_fields-optional false key j rest a b given missing = ap (into_fields f rest) (missing refl)

zero_of_is_zero : (n : ℤ) → not (is_zero n) ≡ false → pos 0 ≡ n
zero_of_is_zero (pos n) h = ground arith
zero_of_is_zero (negsuc n) h = ground arith

empty_of_test : (s : String) → not (s == "") ≡ false → "" ≡ s
empty_of_test s h = ground (arith, eq_iff s "")

module _ {A : Type 0} where
  nil_of_nonempty : (l : List A) → nonempty l ≡ false → [] ≡ l
  nil_of_nonempty [] h = refl
  nil_of_nonempty (x ∷ l) h = ground arith

pub into_strings-strings : (l old : List String) → into_strings (strings l) old ≡ ok l
unfolding into_items
into_strings-strings [] old = refl
into_strings-strings (s ∷ l) old = rw (into_strings-strings l old) refl

-- A folder whose quotas an `int64` can hold.
abbrev pub FitsFolder : Vf → Type 0
FitsFolder v = (in_int64 v.quota_size ≡ true) × (in_int64 v.quota_files ≡ true)

folder_round :
    (v : Vf) → FitsFolder v → into_struct set_folder_field (encode_folder v) zero_folder ≡ ok v
unfolding encode_folder set_folder_field
folder_round v (h, k) =
    let a : Vf = record zero_folder { virtual_path = v.virtual_path } in
    let b : Vf = record a { mapped_path = v.mapped_path } in
    let c : Vf = record b { quota_size = v.quota_size } in
    into_fields-field set_folder_field "virtual_path" (str v.virtual_path) _ zero_folder a refl
    ∙ into_fields-field set_folder_field "mapped_path" (str v.mapped_path) _ a b refl
    ∙ into_fields-optional set_folder_field (not (is_zero v.quota_size)) "quota_size"
        (int v.quota_size) _ b c (λ set. rw h refl)
        (λ e. ap (λ n. record b { quota_size = n }) (zero_of_is_zero v.quota_size e))
    ∙ into_fields-optional set_folder_field (not (is_zero v.quota_files)) "quota_files"
        (int v.quota_files) close c v (λ set. rw k refl)
        (λ e. ap (λ n. record c { quota_files = n }) (zero_of_is_zero v.quota_files e))
    ∙ into_fields-close set_folder_field v

member_round :
    (g : Gm)
    → in_int64 g.type ≡ true
    → into_struct set_member_field (encode_member g) zero_member ≡ ok g
unfolding encode_member into_fields set_member_field
member_round g h = rw h refl

pub permissions_round :
    (m : Dict (List String))
    → (path : String) (l : List String) → m ≡ (path, l) ∷ []
    → into_permissions (obj (encode_permissions m)) [] ≡ ok m
unfolding encode_permissions into_fields set_entry
permissions_round m path l h = rw h (rw (into_strings-strings l []) refl)

-- What a payload must be to come back: its numbers fit the types of its fields, and it has one path
-- in its permissions, as `UserFromCR` makes it.
pub record IsSendable (p : UserPayload) : Type 0 where
  pub id : in_int64 p.id ≡ true
  pub status : in_int64 p.status ≡ true
  pub folders : All FitsFolder p.virtual_folders
  pub path : String
  pub allowed : List String
  pub permissions : p.permissions ≡ (path, allowed) ∷ []
  pub quota_size : in_int64 p.quota_size ≡ true
  pub quota_files : in_int64 p.quota_files ≡ true
  pub upload_bandwidth : in_int64 p.upload_bandwidth ≡ true
  pub download_bandwidth : in_int64 p.download_bandwidth ≡ true
  pub max_sessions : in_int64 p.max_sessions ≡ true
  pub groups : All (λ (g : Gm). in_int64 g.type ≡ true) p.groups

pub folders_round :
    (l : List Vf)
    → All FitsFolder l
    → into_items (λ i. into_struct set_folder_field i zero_folder) (items encode_folder l) ≡ ok l
unfolding into_items
folders_round [] h = refl
folders_round (v ∷ l) h = rw (folder_round v h.0, folders_round l h.1) refl

pub members_round :
    (l : List Gm)
    → All (λ (g : Gm). in_int64 g.type ≡ true) l
    → into_items (λ i. into_struct set_member_field i zero_member) (items encode_member l) ≡ ok l
unfolding into_items
members_round [] h = refl
members_round (g ∷ l) h = rw (member_round g h.0, members_round l h.1) refl

abbrev pub number_field : (key : String) (n : ℤ) → (rest : Fields) → Fields
number_field key n rest = optional (not (is_zero n)) key (int n) rest

pub number_step :
    (key : String) (n : ℤ) (rest : Fields) (set : ℤ → UserPayload)
    → (in_int64 n ≡ true → set_payload_field key (int n) (set (pos 0)) ≡ ok (set n))
    → in_int64 n ≡ true
    → into_fields set_payload_field (number_field key n rest) (set (pos 0))
      ≡ into_fields set_payload_field rest (set n)
number_step key n rest set h fits =
    into_fields-optional set_payload_field (not (is_zero n)) key (int n) rest (set (pos 0)) (set n)
      (λ e. h fits) (λ e. ap set (zero_of_is_zero n e))

pub text_step :
    (key s : String) (rest : Fields) (set : String → UserPayload)
    → set_payload_field key (str s) (set "") ≡ ok (set s)
    → into_fields set_payload_field (optional (not (s == "")) key (str s) rest) (set "")
      ≡ into_fields set_payload_field rest (set s)
text_step key s rest set h =
    into_fields-optional set_payload_field (not (s == "")) key (str s) rest (set "") (set s)
      (λ e. h) (λ e. ap set (empty_of_test s e))

pub list_step :
    {A : Type 0} (key : String) (l : List A) (j : Json) (rest : Fields) (set : List A → UserPayload)
    → set_payload_field key j (set []) ≡ ok (set l)
    → into_fields set_payload_field (optional (nonempty l) key j rest) (set [])
      ≡ into_fields set_payload_field rest (set l)
list_step key l j rest set h =
    into_fields-optional set_payload_field (nonempty l) key j rest (set []) (set l) (λ e. h)
      (λ e. ap set (nil_of_nonempty l e))
