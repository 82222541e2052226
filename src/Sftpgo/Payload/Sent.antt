-- ===== src/Sftpgo/Payload/Sent.antt =====
-- The payloads that the user controller sends come back from a decoder.
use sftpgo_operator.Base.{
  String, true, ◌≡◌, refl, Option, none, some, List, [], ◌∷◌, ℤ, pos, negsuc, in_int64, quot, ok,
  subst, arith, All, if◌then◌else◌, ◌==◌,
}
use sftpgo_operator.Api.UserTypes.{SftpGoUserSpec, VirtualFolder, Quota, BandwidthLimits}
use sftpgo_operator.Sftpgo.Payload.{Gm, user_from_cr, encode_payload}
use sftpgo_operator.Sftpgo.Payload.Laws.{
  quota_size_of, quota_files_of, upload_of, download_of, permissions_of, at_least_zero, payload_of,
  user_from_cr-eq-payload_of, kilobytes, quot-kilobytes, folders_of, members_of,
}
use sftpgo_operator.Sftpgo.Payload.Reading.{FitsFolder, IsSendable}
use sftpgo_operator.Sftpgo.Payload.RoundTrip.{decode_payload-encode_payload}
use sftpgo_operator.Sftpgo.Decode.{decode_payload}

abbrev pub FitsQuota : Option Quota → Type 0
FitsQuota none = Unit
FitsQuota (some q) = (in_int64 q.size ≡ true) × (in_int64 q.files ≡ true)

abbrev pub FitsLimits : Option BandwidthLimits → Type 0
FitsLimits none = Unit
FitsLimits (some b) = (in_int64 b.upload ≡ true) × (in_int64 b.download ≡ true)

-- A specification whose numbers are those of 64-bit integers, as they are in Go.
pub record FitsSpec (spec : SftpGoUserSpec) : Type 0 where
  pub folders : All (λ (v : VirtualFolder). in_int64 v.quota ≡ true) spec.virtual_folders
  pub quota : FitsQuota spec.quota
  pub limits : FitsLimits spec.bandwidth_limits
  pub max_sessions : in_int64 spec.max_sessions ≡ true

folders_fit :
    (l : List VirtualFolder)
    → All (λ (v : VirtualFolder). in_int64 v.quota ≡ true) l
    → All FitsFolder (folders_of l)
folders_fit [] h = tt
folders_fit (v ∷ l) h = ((h.0, refl), folders_fit l h.1)

members_fit : (l : List String) → All (λ (g : Gm). in_int64 g.type ≡ true) (members_of l)
members_fit [] = tt
members_fit (g ∷ l) = (refl, members_fit l)

quot_fits : (z : ℤ) → in_int64 z ≡ true → in_int64 (quot z 1024) ≡ true
quot_fits (pos n) h = ground arith
quot_fits (negsuc n) h = ground arith

kilobytes_fit : (z : ℤ) → in_int64 z ≡ true → in_int64 (kilobytes z) ≡ true
kilobytes_fit z h = subst (λ k. in_int64 k ≡ true) (quot-kilobytes z) (quot_fits z h)

quota_fits :
    (q : Option Quota)
    → FitsQuota q
    → (in_int64 (quota_size_of q) ≡ true) × (in_int64 (quota_files_of q) ≡ true)
quota_fits none h = (refl, refl)
quota_fits (some q) h = h

limits_fit :
    (b : Option BandwidthLimits)
    → FitsLimits b
    → (in_int64 (upload_of b) ≡ true) × (in_int64 (download_of b) ≡ true)
limits_fit none h = (refl, refl)
limits_fit (some b) h = (kilobytes_fit b.upload h.0, kilobytes_fit b.download h.1)

sessions_fit : (n : ℤ) → in_int64 n ≡ true → in_int64 (at_least_zero n) ≡ true
sessions_fit (pos n) h = h
sessions_fit (negsuc n) h = refl

status_fits : (s : String) → in_int64 (if s == "disabled" then pos 0 else pos 1) ≡ true
status_fits s = ground arith

payload_of-IsSendable :
    (spec : SftpGoUserSpec) (password : String) (public_keys : List String)
    → FitsSpec spec
    → IsSendable (payload_of spec password public_keys)
payload_of-IsSendable spec password public_keys h = record {
  id = refl;
  status = status_fits spec.status;
  folders = folders_fit spec.virtual_folders h.folders;
  path = "/";
  allowed = permissions_of spec.permissions;
  permissions = refl;
  quota_size = (quota_fits spec.quota h.quota).0;
  quota_files = (quota_fits spec.quota h.quota).1;
  upload_bandwidth = (limits_fit spec.bandwidth_limits h.limits).0;
  download_bandwidth = (limits_fit spec.bandwidth_limits h.limits).1;
  max_sessions = sessions_fit spec.max_sessions h.max_sessions;
  groups = members_fit spec.groups;
}

-- Where the numbers of a specification are 64-bit integers, as they are in Go, the payload that
-- `UserFromCR` makes of it is the same after it has been encoded and decoded.
pub decode_payload-user_from_cr :
    (spec : SftpGoUserSpec) (password : String) (public_keys : List String)
    → FitsSpec spec
    → decode_payload (encode_payload (user_from_cr spec password public_keys))
      ≡ ok (user_from_cr spec password public_keys)
decode_payload-user_from_cr spec password public_keys h =
    rw (user_from_cr-eq-payload_of spec password public_keys) (
      decode_payload-encode_payload (payload_of spec password public_keys)
        (payload_of-IsSendable spec password public_keys h))
