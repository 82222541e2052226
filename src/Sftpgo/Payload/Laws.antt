-- ===== src/Sftpgo/Payload/Laws.antt =====
-- What `UserFromCR` makes of a user's specification.
use sftpgo_operator.Base.{
  ℕ, suc, Bool-cases, inl, inr, ◌+◌, ◌-◌, ◌*◌, ◌/◌, ltb, ◌≤◌, ◌<◌, String, ◌≡◌, refl, Option, none,
  some, List, [], ◌∷◌, ℤ, pos, negsuc, quot, nonempty, map, arith, ◌==◌, eq_iff, ap, if◌then◌else◌,
}
use sftpgo_operator.Api.UserTypes.{
  SftpGoUserSpec, VirtualFolder, Quota, BandwidthLimits, RateLimits, UserFilters, FilesystemConfig,
}
use sftpgo_operator.Sftpgo.Payload.{
  Vf, Gm, UserPayload, folder_of, member_of, plain_payload, user_from_cr, with_password,
  with_public_keys, with_quota, with_bandwidth, with_max_sessions, with_allowed_ip, with_denied_ip,
}

-- The payload field by field, as the API reads it: 1 for an enabled user, all permissions on the
-- root unless some are listed, zero for a limit that is not set, kilobytes for bandwidths.
abbrev pub quota_size_of : Option Quota → ℤ
quota_size_of none = pos 0
quota_size_of (some q) = q.size

abbrev pub quota_files_of : Option Quota → ℤ
quota_files_of none = pos 0
quota_files_of (some q) = q.files

-- Whole kilobytes, towards zero.
abbrev pub kilobytes : ℤ → ℤ
kilobytes (pos n) = pos (n / 1024)
kilobytes (negsuc n) = if ltb n 1023 then pos 0 else negsuc ((n + 1) / 1024 - 1)

abbrev pub upload_of : Option BandwidthLimits → ℤ
upload_of none = pos 0
upload_of (some b) = kilobytes b.upload

abbrev pub download_of : Option BandwidthLimits → ℤ
download_of none = pos 0
download_of (some b) = kilobytes b.download

abbrev pub permissions_of : List String → List String
permissions_of [] = "*" ∷ []
permissions_of (p ∷ l) = p ∷ l

abbrev pub at_least_zero : ℤ → ℤ
at_least_zero (pos n) = pos n
at_least_zero (negsuc n) = pos 0

-- A folder is shown at its virtual path and kept at its physical one, with no limit on the number
-- of its files.
abbrev pub folders_of : List VirtualFolder → List Vf
folders_of [] = []
folders_of (vf ∷ l) =
    record {
      virtual_path = vf.virtual_path;
      mapped_path = vf.physical_path;
      quota_size = vf.quota;
      quota_files = pos 0;
    }
    ∷ folders_of l

-- Each group is a primary one, of type 1.
abbrev pub members_of : List String → List Gm
members_of [] = []
members_of (name ∷ l) = record { name = name; type = pos 1 } ∷ members_of l

abbrev pub payload_of : SftpGoUserSpec → String → List String → UserPayload
payload_of spec password public_keys = record {
  id = pos 0;
  username = spec.username;
  status = if spec.status == "disabled" then pos 0 else pos 1;
  email = spec.email;
  password = password;
  public_keys = public_keys;
  home_dir = spec.home_dir;
  virtual_folders = folders_of spec.virtual_folders;
  permissions = ("/", permissions_of spec.permissions) ∷ [];
  quota_size = quota_size_of spec.quota;
  quota_files = quota_files_of spec.quota;
  upload_bandwidth = upload_of spec.bandwidth_limits;
  download_bandwidth = download_of spec.bandwidth_limits;
  max_sessions = at_least_zero spec.max_sessions;
  allowed_ip = spec.allowed_ip;
  denied_ip = spec.denied_ip;
  groups = members_of spec.groups;
}

pub quot-kilobytes : (z : ℤ) → quot z 1024 ≡ kilobytes z
quot-kilobytes (pos n) = refl
quot-kilobytes (negsuc n) = elim (Bool-cases (ltb n 1023)) [
  | inl e ↦ let none_left : suc n / 1024 ≡ 0 = ground arith in rw (none_left, e) refl
  | inr e ↦
      let some_left : suc n / 1024 ≡ suc ((n + 1) / 1024 - 1) = ground arith in
      rw (some_left, e) refl
]

-- Each guarded assignment gives what the assignment without its guard gives.
module _ (p : UserPayload) where
  with_password_lem : (s : String) → p.password ≡ "" → with_password s p ≡ record p { password = s }
  unfolding with_password
  with_password_lem s h = ground (arith, eq_iff s "")

  with_public_keys_lem :
      (l : List String) → p.public_keys ≡ [] → with_public_keys l p ≡ record p { public_keys = l }
  unfolding with_public_keys
  with_public_keys_lem [] h = ground arith
  with_public_keys_lem (k ∷ l) h = refl

  with_quota_lem :
      (q : Option Quota)
      → p.quota_size ≡ pos 0
      → p.quota_files ≡ pos 0
      → with_quota q p ≡ record p { quota_size = quota_size_of q; quota_files = quota_files_of q }
  unfolding with_quota
  with_quota_lem none h k = ground arith
  with_quota_lem (some q) h k = refl

  with_bandwidth_lem :
      (b : Option BandwidthLimits)
      → p.upload_bandwidth ≡ pos 0
      → p.download_bandwidth ≡ pos 0
      → with_bandwidth b p
        ≡ record p { upload_bandwidth = upload_of b; download_bandwidth = download_of b }
  unfolding with_bandwidth
  with_bandwidth_lem none h k = ground arith
  with_bandwidth_lem (some b) h k = rw (quot-kilobytes b.upload, quot-kilobytes b.download) refl

  with_max_sessions_lem :
      (n : ℤ)
      → p.max_sessions ≡ pos 0
      → with_max_sessions n p ≡ record p { max_sessions = at_least_zero n }
  unfolding with_max_sessions
  with_max_sessions_lem (pos n) h = ground arith
  with_max_sessions_lem (negsuc n) h = ground arith

  with_allowed_ip_lem :
      (l : List String) → p.allowed_ip ≡ [] → with_allowed_ip l p ≡ record p { allowed_ip = l }
  unfolding with_allowed_ip
  with_allowed_ip_lem [] h = ground arith
  with_allowed_ip_lem (k ∷ l) h = refl

  with_denied_ip_lem :
      (l : List String) → p.denied_ip ≡ [] → with_denied_ip l p ≡ record p { denied_ip = l }
  unfolding with_denied_ip
  with_denied_ip_lem [] h = ground arith
  with_denied_ip_lem (k ∷ l) h = refl

permissions_of_lem : (l : List String) → (if nonempty l then l else "*" ∷ []) ≡ permissions_of l
permissions_of_lem [] = refl
permissions_of_lem (p ∷ l) = refl

map-folder_of : (l : List VirtualFolder) → map folder_of l ≡ folders_of l
map-folder_of [] = refl
map-folder_of (vf ∷ l) = ap (λ r. folder_of vf ∷ r) (map-folder_of l)

map-member_of : (l : List String) → map member_of l ≡ members_of l
map-member_of [] = refl
map-member_of (name ∷ l) = ap (λ r. member_of name ∷ r) (map-member_of l)

-- The payload has exactly the fields of the field-by-field description, for every specification,
-- password and list of keys.
pub user_from_cr-eq-payload_of :
    (spec : SftpGoUserSpec) (password : String) (public_keys : List String)
    → user_from_cr spec password public_keys ≡ payload_of spec password public_keys
unfolding user_from_cr
user_from_cr-eq-payload_of spec password public_keys =
    let p : UserPayload = plain_payload spec in
    let keyed : UserPayload = record p { password = password; public_keys = public_keys } in
    let foldered : UserPayload = record keyed {
      virtual_folders = map folder_of spec.virtual_folders;
    } in
    let quoted : UserPayload = record foldered {
      quota_size = quota_size_of spec.quota;
      quota_files = quota_files_of spec.quota;
    } in
    let limited : UserPayload = record quoted {
      upload_bandwidth = upload_of spec.bandwidth_limits;
      download_bandwidth = download_of spec.bandwidth_limits;
    } in
    let seated : UserPayload = record limited { max_sessions = at_least_zero spec.max_sessions } in
    rw (
      with_password_lem p password refl,
      with_public_keys_lem (record p { password = password }) public_keys refl,
      with_quota_lem foldered spec.quota refl refl,
      with_bandwidth_lem quoted spec.bandwidth_limits refl refl,
      with_max_sessions_lem limited spec.max_sessions refl,
      with_allowed_ip_lem seated spec.allowed_ip refl,
      with_denied_ip_lem (record seated { allowed_ip = spec.allowed_ip }) spec.denied_ip refl,
      permissions_of_lem spec.permissions,
      map-folder_of spec.virtual_folders,
      map-member_of spec.groups,
    )

-- Settings that the custom resource accepts and the payload does not carry: no change of them
-- changes the payload.
pub user_from_cr-ignores :
    (spec : SftpGoUserSpec) (password : String) (public_keys : List String)
    (rate_limits : Option RateLimits) (transfers : ℤ) (protocols : List String)
    (filters : UserFilters) (filesystem : Option FilesystemConfig)
    → user_from_cr
        (record spec {
          rate_limits = rate_limits;
          max_concurrent_transfers = transfers;
          protocols = protocols;
          filters = filters;
          filesystem = filesystem;
        })
        password
        public_keys
      ≡ user_from_cr spec password public_keys
unfolding user_from_cr
user_from_cr-ignores spec password public_keys r t p f fs = refl

-- An upload limit of `n` bytes per second becomes `k` kilobytes, which are not more than `n` bytes
-- and less than one kilobyte below it.
pub upload_bandwidth_bounds :
    (spec : SftpGoUserSpec) (password : String) (public_keys : List String) (n : ℕ) (down : ℤ)
    → spec.bandwidth_limits ≡ some (record { upload = pos n; download = down })
    → (k : ℕ) × ((user_from_cr spec password public_keys).upload_bandwidth ≡ pos k)
      × (k * 1024 ≤ n)
      × (n < k * 1024 + 1024)
upload_bandwidth_bounds spec password public_keys n down h =
    rw (user_from_cr-eq-payload_of spec password public_keys, h)
      (n / 1024, refl, omega arith, omega arith)
