-- ===== src/Copies/User/Laws.antt =====
-- The copies of the structs of api/v1alpha1/sftpgouser_types.go, field by field.
use sftpgo_operator.Base.{refl}
use sftpgo_operator.Api.Meta.{Kinds}
use sftpgo_operator.Copies.Memory.{pointer, slice, slice_of}
use sftpgo_operator.Copies.Foreign.{Foreign, IsForeignDeep}
use sftpgo_operator.Copies.Laws.{
  IsDeep, ++-Span, flat-IsDeep, pointer-IsDeep, slice-IsDeep, slice_of-IsDeep,
}
use sftpgo_operator.Copies.User.Methods.{
  time_interval, user_filters, s3_filesystem_config, azure_filesystem_config,
  sftp_filesystem_config, crypt_filesystem_config, filesystem_config, sftp_go_user_spec,
  sftp_go_user_status, sftp_go_user, secret_ref, quota, bandwidth_limits, rate_limits,
  gcs_filesystem_config, sftp_go_user_list,
}

pub time_interval-IsDeep : IsDeep time_interval
time_interval-IsDeep c n = let (s₁, v₁) = slice-IsDeep c.days n in (s₁, rw v₁ refl)

pub user_filters-IsDeep : IsDeep user_filters
user_filters-IsDeep c n =
    let (s₁, v₁) = slice-IsDeep c.allowed_commands n in
    let n₁ = (slice.deep_copy_into c.allowed_commands n).1 in
    let (s₂, v₂) = slice_of-IsDeep time_interval time_interval-IsDeep c.time_intervals n₁ in
    (++-Span _ _ _ _ _ s₁ s₂, rw (v₁, v₂) refl)

pub s3_filesystem_config-IsDeep : IsDeep s3_filesystem_config
s3_filesystem_config-IsDeep c n =
    let (s₁, v₁) = pointer-IsDeep secret_ref flat-IsDeep c.access_secret n in (s₁, rw v₁ refl)

pub azure_filesystem_config-IsDeep : IsDeep azure_filesystem_config
azure_filesystem_config-IsDeep c n =
    let (s₁, v₁) = pointer-IsDeep secret_ref flat-IsDeep c.account_key n in (s₁, rw v₁ refl)

pub sftp_filesystem_config-IsDeep : IsDeep sftp_filesystem_config
sftp_filesystem_config-IsDeep c n =
    let (s₁, v₁) = pointer-IsDeep secret_ref flat-IsDeep c.password n in
    let n₁ = ((pointer secret_ref).deep_copy_into c.password n).1 in
    let (s₂, v₂) = pointer-IsDeep secret_ref flat-IsDeep c.private_key n₁ in
    (++-Span _ _ _ _ _ s₁ s₂, rw (v₁, v₂) refl)

pub crypt_filesystem_config-IsDeep : IsDeep crypt_filesystem_config
crypt_filesystem_config-IsDeep c n =
    let (s₁, v₁) = pointer-IsDeep secret_ref flat-IsDeep c.passphrase n in (s₁, rw v₁ refl)

pub filesystem_config-IsDeep : IsDeep filesystem_config
filesystem_config-IsDeep c n =
    let (s₁, v₁) = pointer-IsDeep s3_filesystem_config s3_filesystem_config-IsDeep c.s3 n in
    let n₁ = ((pointer s3_filesystem_config).deep_copy_into c.s3 n).1 in
    let (s₂, v₂) = pointer-IsDeep gcs_filesystem_config flat-IsDeep c.gcs n₁ in
    let n₂ = ((pointer gcs_filesystem_config).deep_copy_into c.gcs n₁).1 in
    let (s₃, v₃) =
      pointer-IsDeep azure_filesystem_config azure_filesystem_config-IsDeep c.azure n₂ in
    let n₃ = ((pointer azure_filesystem_config).deep_copy_into c.azure n₂).1 in
    let (s₄, v₄) = pointer-IsDeep sftp_filesystem_config sftp_filesystem_config-IsDeep c.sftp n₃ in
    let n₄ = ((pointer sftp_filesystem_config).deep_copy_into c.sftp n₃).1 in
    let (s₅, v₅) =
      pointer-IsDeep crypt_filesystem_config crypt_filesystem_config-IsDeep c.crypt n₄ in
    (
      ++-Span _ _ _ _ _ (++-Span _ _ _ _ _ (++-Span _ _ _ _ _ (++-Span _ _ _ _ _ s₁ s₂) s₃) s₄) s₅,
      rw (v₁, v₂, v₃, v₄, v₅) refl,
    )

pub sftp_go_user_spec-IsDeep : IsDeep sftp_go_user_spec
sftp_go_user_spec-IsDeep c n =
    let (s₁, v₁) = pointer-IsDeep secret_ref flat-IsDeep c.password_secret_ref n in
    let n₁ = ((pointer secret_ref).deep_copy_into c.password_secret_ref n).1 in
    let (s₂, v₂) = slice-IsDeep c.public_keys n₁ in
    let n₂ = (slice.deep_copy_into c.public_keys n₁).1 in
    let (s₃, v₃) = pointer-IsDeep secret_ref flat-IsDeep c.public_keys_secret_ref n₂ in
    let n₃ = ((pointer secret_ref).deep_copy_into c.public_keys_secret_ref n₂).1 in
    let (s₄, v₄) = slice-IsDeep c.virtual_folders n₃ in
    let n₄ = (slice.deep_copy_into c.virtual_folders n₃).1 in
    let (s₅, v₅) = slice-IsDeep c.permissions n₄ in
    let n₅ = (slice.deep_copy_into c.permissions n₄).1 in
    let (s₆, v₆) = pointer-IsDeep quota flat-IsDeep c.quota n₅ in
    let n₆ = ((pointer quota).deep_copy_into c.quota n₅).1 in
    let (s₇, v₇) = pointer-IsDeep bandwidth_limits flat-IsDeep c.bandwidth_limits n₆ in
    let n₇ = ((pointer bandwidth_limits).deep_copy_into c.bandwidth_limits n₆).1 in
    let (s₈, v₈) = pointer-IsDeep rate_limits flat-IsDeep c.rate_limits n₇ in
    let n₈ = ((pointer rate_limits).deep_copy_into c.rate_limits n₇).1 in
    let (s₉, v₉) = slice-IsDeep c.allowed_ip n₈ in
    let n₉ = (slice.deep_copy_into c.allowed_ip n₈).1 in
    let (s₁₀, v₁₀) = slice-IsDeep c.denied_ip n₉ in
    let n₁₀ = (slice.deep_copy_into c.denied_ip n₉).1 in
    let (s₁₁, v₁₁) = slice-IsDeep c.protocols n₁₀ in
    let n₁₁ = (slice.deep_copy_into c.protocols n₁₀).1 in
    let (s₁₂, v₁₂) = slice-IsDeep c.groups n₁₁ in
    let n₁₂ = (slice.deep_copy_into c.groups n₁₁).1 in
    let (s₁₃, v₁₃) = user_filters-IsDeep c.filters n₁₂ in
    let n₁₃ = (user_filters.deep_copy_into c.filters n₁₂).1 in
    let (s₁₄, v₁₄) = pointer-IsDeep filesystem_config filesystem_config-IsDeep c.filesystem n₁₃ in
    (
      ++-Span _ _ _ _ _
          (++-Span _ _ _ _ _
            (++-Span _ _ _ _ _
              (++-Span _ _ _ _ _
                (++-Span _ _ _ _ _
                  (++-Span _ _ _ _ _
                    (++-Span _ _ _ _ _
                      (++-Span _ _ _ _ _
                        (++-Span _ _ _ _ _
                          (++-Span _ _ _ _ _
                            (++-Span _ _ _ _ _ (++-Span _ _ _ _ _ (++-Span _ _ _ _ _ s₁ s₂) s₃) s₄)
                            s₅)
                          s₆)
                        s₇)
                      s₈)
                    s₉)
                  s₁₀)
                s₁₁)
              s₁₂)
            s₁₃)
          s₁₄,
      rw (v₁, v₂, v₃, v₄, v₅, v₆, v₇, v₈, v₉, v₁₀, v₁₁, v₁₂, v₁₃, v₁₄) refl,
    )

pub sftp_go_user_status-IsDeep :
    {K : Kinds} (F : Foreign K) → IsForeignDeep F → IsDeep (sftp_go_user_status F)
sftp_go_user_status-IsDeep F laws c n =
    let (s₁, v₁) = slice_of-IsDeep F.condition.methods laws.condition c.conditions n in
    let n₁ = ((slice_of F.condition.methods).deep_copy_into c.conditions n).1 in
    let (s₂, v₂) = pointer-IsDeep F.time.methods laws.time c.last_synced n₁ in
    (++-Span _ _ _ _ _ s₁ s₂, rw (v₁, v₂) refl)

pub sftp_go_user-IsDeep : {K : Kinds} (F : Foreign K) → IsForeignDeep F → IsDeep (sftp_go_user F)
sftp_go_user-IsDeep F laws c n =
    let (s₁, v₁) = laws.object_meta c.meta n in
    let n₁ = (F.object_meta.methods.deep_copy_into c.meta n).1 in
    let (s₂, v₂) = sftp_go_user_spec-IsDeep c.spec n₁ in
    let n₂ = (sftp_go_user_spec.deep_copy_into c.spec n₁).1 in
    let (s₃, v₃) = sftp_go_user_status-IsDeep F laws c.status n₂ in
    (++-Span _ _ _ _ _ (++-Span _ _ _ _ _ s₁ s₂) s₃, rw (v₁, v₂, v₃) refl)

pub sftp_go_user_list-IsDeep :
    {K : Kinds} (F : Foreign K) → IsForeignDeep F → IsDeep (sftp_go_user_list F)
sftp_go_user_list-IsDeep F laws c n =
    let (s₁, v₁) = laws.list_meta c.list_meta n in
    let n₁ = (F.list_meta.methods.deep_copy_into c.list_meta n).1 in
    let (s₂, v₂) = slice_of-IsDeep (sftp_go_user F) (sftp_go_user-IsDeep F laws) c.items n₁ in
    (++-Span _ _ _ _ _ s₁ s₂, rw (v₁, v₂) refl)
