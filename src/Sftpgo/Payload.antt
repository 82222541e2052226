-- ===== src/Sftpgo/Payload.antt =====
-- `UserPayload`, its JSON form, and `UserFromCR`.
pub mod Laws
pub mod Reading
pub mod RoundTrip
pub mod Sent
use sftpgo_operator.Base.{
  String, Option, none, some, List, [], ◌∷◌, not, ℤ, pos, is_zero, is_positive, quot, nonempty, map,
  ◌==◌, if◌then◌else◌,
}
use sftpgo_operator.Base.Text.{Dict}
use sftpgo_operator.Api.UserTypes.{SftpGoUserSpec, VirtualFolder, Quota, BandwidthLimits}
use sftpgo_operator.Sftpgo.Json.{
  Json, int, str, arr, obj, Fields, close, field, optional, items, strings,
}

-- `VF`
pub record Vf : Type 0 where
  pub virtual_path : String
  pub mapped_path : String
  pub quota_size : ℤ
  pub quota_files : ℤ

-- `GM`
pub record Gm : Type 0 where
  pub name : String
  pub type : ℤ

pub record UserPayload : Type 0 where
  pub id : ℤ
  pub username : String
  pub status : ℤ
  pub email : String
  pub password : String
  pub public_keys : List String
  pub home_dir : String
  pub virtual_folders : List Vf
  pub permissions : Dict (List String)
  pub quota_size : ℤ
  pub quota_files : ℤ
  pub upload_bandwidth : ℤ
  pub download_bandwidth : ℤ
  pub max_sessions : ℤ
  pub allowed_ip : List String
  pub denied_ip : List String
  pub groups : List Gm

abbrev pub zero_payload : UserPayload
zero_payload = record {
  id = pos 0;
  username = "";
  status = pos 0;
  email = "";
  password = "";
  public_keys = [];
  home_dir = "";
  virtual_folders = [];
  permissions = [];
  quota_size = pos 0;
  quota_files = pos 0;
  upload_bandwidth = pos 0;
  download_bandwidth = pos 0;
  max_sessions = pos 0;
  allowed_ip = [];
  denied_ip = [];
  groups = [];
}

abbrev folder_of : VirtualFolder → Vf
folder_of vf = record {
  virtual_path = vf.virtual_path;
  mapped_path = vf.physical_path;
  quota_size = vf.quota;
  quota_files = pos 0;
}

abbrev member_of : String → Gm
member_of g = record { name = g; type = pos 1 }

-- The payload before its guarded assignments.
abbrev pub plain_payload : SftpGoUserSpec → UserPayload
plain_payload spec = record zero_payload {
  username = spec.username;
  status = if spec.status == "disabled" then pos 0 else pos 1;
  email = spec.email;
  home_dir = spec.home_dir;
  permissions = ("/", if nonempty spec.permissions then spec.permissions else "*" ∷ []) ∷ [];
}

-- The guarded assignments, in their order.
unfoldable pub with_password : String → UserPayload → UserPayload
with_password password p = if password == "" then p else record p { password = password }

unfoldable pub with_public_keys : List String → UserPayload → UserPayload
with_public_keys l p = if nonempty l then record p { public_keys = l } else p

unfoldable pub with_quota : Option Quota → UserPayload → UserPayload
with_quota none p = p
with_quota (some q) p = record p { quota_size = q.size; quota_files = q.files }

unfoldable pub with_bandwidth : Option BandwidthLimits → UserPayload → UserPayload
with_bandwidth none p = p
with_bandwidth (some b) p = record p {
  upload_bandwidth = quot b.upload 1024;
  download_bandwidth = quot b.download 1024;
}

unfoldable pub with_max_sessions : ℤ → UserPayload → UserPayload
with_max_sessions n p = if is_positive n then record p { max_sessions = n } else p

unfoldable pub with_allowed_ip : List String → UserPayload → UserPayload
with_allowed_ip l p = if nonempty l then record p { allowed_ip = l } else p

unfoldable pub with_denied_ip : List String → UserPayload → UserPayload
with_denied_ip l p = if nonempty l then record p { denied_ip = l } else p

-- The loops over the folders and the groups append to a nil slice.
unfoldable pub user_from_cr : SftpGoUserSpec → String → List String → UserPayload
user_from_cr spec password public_keys =
    let keyed = with_public_keys public_keys (with_password password (plain_payload spec)) in
    let foldered : UserPayload = record keyed {
      virtual_folders = map folder_of spec.virtual_folders;
    } in
    let limited = with_bandwidth spec.bandwidth_limits (with_quota spec.quota foldered) in
    let filtered =
      with_denied_ip spec.denied_ip
        (with_allowed_ip spec.allowed_ip (with_max_sessions spec.max_sessions limited)) in
    record filtered { groups = map member_of spec.groups }

unfoldable pub encode_folder : Vf → Json
encode_folder v = obj (
    field "virtual_path" (str v.virtual_path) (
      field "mapped_path" (str v.mapped_path) (
        optional (not (is_zero v.quota_size)) "quota_size" (int v.quota_size)
          (optional (not (is_zero v.quota_files)) "quota_files" (int v.quota_files) close))))

unfoldable pub encode_member : Gm → Json
encode_member g = obj (field "name" (str g.name) (field "type" (int g.type) close))

unfoldable pub encode_permissions : Dict (List String) → Fields
encode_permissions [] = close
encode_permissions ((path, l) ∷ m) = field path (strings l) (encode_permissions m)

-- `json.Marshal` of a payload, by its field tags.
unfoldable pub encode_payload : UserPayload → Json
unfolding encode_folder encode_member encode_permissions
encode_payload p =
    let number =
      λ (key : String) (n : ℤ) (rest : Fields). optional (not (is_zero n)) key (int n) rest in
    let list = λ (key : String) (l : List String) (rest : Fields).
      optional (nonempty l) key (strings l) rest in
    obj (
      number "id" p.id (
        field "username" (str p.username) (
          field "status" (int p.status) (
            optional (not (p.email == "")) "email" (str p.email) (
              optional (not (p.password == "")) "password" (str p.password) (
                list "public_keys" p.public_keys (
                  field "home_dir" (str p.home_dir) (
                    optional (nonempty p.virtual_folders) "virtual_folders"
                      (arr (items encode_folder p.virtual_folders))
                      (optional (nonempty p.permissions) "permissions"
                        (obj (encode_permissions p.permissions))
                        (number "quota_size" p.quota_size (
                          number "quota_files" p.quota_files (
                            number "upload_bandwidth" p.upload_bandwidth (
                              number "download_bandwidth" p.download_bandwidth (
                                number "max_sessions" p.max_sessions (
                                  list "allowed_ip" p.allowed_ip (
                                    list "denied_ip" p.denied_ip (
                                      optional (nonempty p.groups) "groups"
                                        (arr (items encode_member p.groups)) close)))))))))))))))))
