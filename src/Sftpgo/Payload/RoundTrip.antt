-- ===== src/Sftpgo/Payload/RoundTrip.antt =====
-- A payload that is encoded and decoded again.
use sftpgo_operator.Base.{◌≡◌, refl, ◌∙◌, ap, not, [], nonempty, ok, ◌==◌}
use sftpgo_operator.Sftpgo.Json.{int, str, arr, obj, Fields, close, field, optional, items, strings}
use sftpgo_operator.Sftpgo.Payload.{
  UserPayload, zero_payload, encode_folder, encode_member, encode_permissions, encode_payload,
}
use sftpgo_operator.Sftpgo.Decode.{into_fields, set_payload_field, decode_payload}
use sftpgo_operator.Sftpgo.Payload.Reading.{
  IsSendable, number_field, into_fields-field, into_fields-close, into_strings-strings,
  permissions_round, folders_round, members_round, number_step, text_step, list_step,
}

-- The fields up to the permissions, the payload that has been read from them, and the other fields.
abbrev head_fields : UserPayload → Fields → Fields
head_fields p rest = number_field "id" p.id (
    field "username" (str p.username) (
      field "status" (int p.status) (
        optional (not (p.email == "")) "email" (str p.email) (
          optional (not (p.password == "")) "password" (str p.password) (
            optional (nonempty p.public_keys) "public_keys" (strings p.public_keys) (
              field "home_dir" (str p.home_dir) (
                optional (nonempty p.virtual_folders) "virtual_folders"
                  (arr (items encode_folder p.virtual_folders))
                  (optional (nonempty p.permissions) "permissions"
                    (obj (encode_permissions p.permissions)) rest))))))))

abbrev head_payload : UserPayload → UserPayload
head_payload p = record zero_payload {
  id = p.id;
  username = p.username;
  status = p.status;
  email = p.email;
  password = p.password;
  public_keys = p.public_keys;
  home_dir = p.home_dir;
  virtual_folders = p.virtual_folders;
  permissions = p.permissions;
}

abbrev tail_fields : UserPayload → Fields
tail_fields p = number_field "quota_size" p.quota_size (
    number_field "quota_files" p.quota_files (
      number_field "upload_bandwidth" p.upload_bandwidth (
        number_field "download_bandwidth" p.download_bandwidth (
          number_field "max_sessions" p.max_sessions (
            optional (nonempty p.allowed_ip) "allowed_ip" (strings p.allowed_ip) (
              optional (nonempty p.denied_ip) "denied_ip" (strings p.denied_ip) (
                optional (nonempty p.groups) "groups" (arr (items encode_member p.groups))
                  close)))))))

head_fields-head_payload :
    (p : UserPayload) (rest : Fields)
    → IsSendable p
    → into_fields set_payload_field (head_fields p rest) zero_payload
      ≡ into_fields set_payload_field rest (head_payload p)
unfolding set_payload_field
head_fields-head_payload p rest h =
    let from_permissions : Fields =
      optional (nonempty p.permissions) "permissions" (obj (encode_permissions p.permissions))
        rest in
    let from_virtual_folders : Fields =
      optional (nonempty p.virtual_folders) "virtual_folders"
        (arr (items encode_folder p.virtual_folders)) from_permissions in
    let from_home_dir : Fields = field "home_dir" (str p.home_dir) from_virtual_folders in
    let from_public_keys : Fields =
      optional (nonempty p.public_keys) "public_keys" (strings p.public_keys) from_home_dir in
    let from_password : Fields =
      optional (not (p.password == "")) "password" (str p.password) from_public_keys in
    let from_email : Fields = optional (not (p.email == "")) "email" (str p.email) from_password in
    let from_status : Fields = field "status" (int p.status) from_email in
    let from_username : Fields = field "username" (str p.username) from_status in
    let with_id : UserPayload = record zero_payload { id = p.id } in
    let with_username : UserPayload = record with_id { username = p.username } in
    let with_status : UserPayload = record with_username { status = p.status } in
    let with_email : UserPayload = record with_status { email = p.email } in
    let with_password : UserPayload = record with_email { password = p.password } in
    let with_public_keys : UserPayload = record with_password { public_keys = p.public_keys } in
    let with_home_dir : UserPayload = record with_public_keys { home_dir = p.home_dir } in
    let with_virtual_folders : UserPayload = record with_home_dir {
      virtual_folders = p.virtual_folders;
    } in
    number_step "id" p.id from_username (λ x. record zero_payload { id = x }) (λ t. rw t refl) h.id
    ∙ into_fields-field set_payload_field "username" (str p.username) from_status with_id
        with_username refl
    ∙ into_fields-field set_payload_field "status" (int p.status) from_email with_username
        with_status (rw h.status refl)
    ∙ text_step "email" p.email from_password (λ x. record with_status { email = x }) refl
    ∙ text_step "password" p.password from_public_keys (λ x. record with_email { password = x })
        refl
    ∙ list_step "public_keys" p.public_keys (strings p.public_keys) from_home_dir
        (λ x. record with_password { public_keys = x })
        (rw (into_strings-strings p.public_keys []) refl)
    ∙ into_fields-field set_payload_field "home_dir" (str p.home_dir) from_virtual_folders
        with_public_keys with_home_dir refl
    ∙ list_step "virtual_folders" p.virtual_folders (arr (items encode_folder p.virtual_folders))
        from_permissions (λ x. record with_home_dir { virtual_folders = x })
        (rw (folders_round p.virtual_folders h.folders) refl)
    ∙ list_step "permissions" p.permissions (obj (encode_permissions p.permissions)) rest
        (λ x. record with_virtual_folders { permissions = x })
        (rw (permissions_round p.permissions h.path h.allowed h.permissions) refl)

tail_fields-head_payload :
    (p : UserPayload)
    → IsSendable p
    → into_fields set_payload_field (tail_fields p) (head_payload p) ≡ ok p
unfolding set_payload_field
tail_fields-head_payload p h =
    let from_groups : Fields =
      optional (nonempty p.groups) "groups" (arr (items encode_member p.groups)) close in
    let from_denied_ip : Fields =
      optional (nonempty p.denied_ip) "denied_ip" (strings p.denied_ip) from_groups in
    let from_allowed_ip : Fields =
      optional (nonempty p.allowed_ip) "allowed_ip" (strings p.allowed_ip) from_denied_ip in
    let from_max_sessions : Fields = number_field "max_sessions" p.max_sessions from_allowed_ip in
    let from_download_bandwidth : Fields =
      number_field "download_bandwidth" p.download_bandwidth from_max_sessions in
    let from_upload_bandwidth : Fields =
      number_field "upload_bandwidth" p.upload_bandwidth from_download_bandwidth in
    let from_quota_files : Fields =
      number_field "quota_files" p.quota_files from_upload_bandwidth in
    let with_quota_size : UserPayload = record (head_payload p) { quota_size = p.quota_size } in
    let with_quota_files : UserPayload = record with_quota_size { quota_files = p.quota_files } in
    let with_upload_bandwidth : UserPayload = record with_quota_files {
      upload_bandwidth = p.upload_bandwidth;
    } in
    let with_download_bandwidth : UserPayload = record with_upload_bandwidth {
      download_bandwidth = p.download_bandwidth;
    } in
    let with_max_sessions : UserPayload = record with_download_bandwidth {
      max_sessions = p.max_sessions;
    } in
    let with_allowed_ip : UserPayload = record with_max_sessions { allowed_ip = p.allowed_ip } in
    let with_denied_ip : UserPayload = record with_allowed_ip { denied_ip = p.denied_ip } in
    number_step "quota_size" p.quota_size from_quota_files
      (λ x. record (head_payload p) { quota_size = x }) (λ t. rw t refl) h.quota_size
    ∙ number_step "quota_files" p.quota_files from_upload_bandwidth
        (λ x. record with_quota_size { quota_files = x }) (λ t. rw t refl) h.quota_files
    ∙ number_step "upload_bandwidth" p.upload_bandwidth from_download_bandwidth
        (λ x. record with_quota_files { upload_bandwidth = x }) (λ t. rw t refl) h.upload_bandwidth
    ∙ number_step "download_bandwidth" p.download_bandwidth from_max_sessions
        (λ x. record with_upload_bandwidth { download_bandwidth = x }) (λ t. rw t refl)
        h.download_bandwidth
    ∙ number_step "max_sessions" p.max_sessions from_allowed_ip
        (λ x. record with_download_bandwidth { max_sessions = x }) (λ t. rw t refl) h.max_sessions
    ∙ list_step "allowed_ip" p.allowed_ip (strings p.allowed_ip) from_denied_ip
        (λ x. record with_max_sessions { allowed_ip = x })
        (rw (into_strings-strings p.allowed_ip []) refl)
    ∙ list_step "denied_ip" p.denied_ip (strings p.denied_ip) from_groups
        (λ x. record with_allowed_ip { denied_ip = x })
        (rw (into_strings-strings p.denied_ip []) refl)
    ∙ list_step "groups" p.groups (arr (items encode_member p.groups)) close
        (λ x. record with_denied_ip { groups = x }) (rw (members_round p.groups h.groups) refl)
    ∙ into_fields-close set_payload_field p

decode_payload_of_fields :
    (fields : Fields)
    → decode_payload (obj fields) ≡ into_fields set_payload_field fields zero_payload
unfolding decode_payload
decode_payload_of_fields fields = refl

encode_payload_fields : (p : UserPayload) → encode_payload p ≡ obj (head_fields p (tail_fields p))
unfolding encode_payload
encode_payload_fields p = refl

-- A payload whose numbers fit the types of its fields and that has one path in its permissions is
-- the same after the client has encoded it and decoded it again.
pub decode_payload-encode_payload :
    (p : UserPayload) → IsSendable p → decode_payload (encode_payload p) ≡ ok p
decode_payload-encode_payload p h =
    ap decode_payload (encode_payload_fields p)
    ∙ decode_payload_of_fields (head_fields p (tail_fields p))
    ∙ head_fields-head_payload p (tail_fields p) h
    ∙ tail_fields-head_payload p h
