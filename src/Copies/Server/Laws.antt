-- ===== src/Copies/Server/Laws.antt =====
-- The copies of the structs of api/v1alpha1/sftpgoserver_types.go, field by field.
use sftpgo_operator.Base.{refl}
use sftpgo_operator.Api.Meta.{Kinds}
use sftpgo_operator.Copies.Memory.{flat, pointer, slice, slice_of}
use sftpgo_operator.Copies.Foreign.{Foreign, IsForeignDeep}
use sftpgo_operator.Copies.Laws.{
  IsDeep, ++-Span, flat-IsDeep, pointer-IsDeep, slice-IsDeep, slice_of-IsDeep,
}
use sftpgo_operator.Copies.Server.Methods.{
  volume_config, database_config, sftp_config, ftp_config, sftpgo_config, sftp_go_server_spec,
  sftp_go_server_status, sftp_go_server, common_config, port_range, web_dav_config, http_config,
  sftp_go_server_list,
}

pub volume_config-IsDeep : IsDeep volume_config
volume_config-IsDeep c n =
    let (s₁, v₁) = pointer-IsDeep flat flat-IsDeep c.storage_class n in (s₁, rw v₁ refl)

pub database_config-IsDeep :
    {K : Kinds} (F : Foreign K) → IsForeignDeep F → IsDeep (database_config F)
database_config-IsDeep F laws c n =
    let (s₁, v₁) =
      pointer-IsDeep F.secret_key_selector.methods laws.secret_key_selector c.password_secret n in
    (s₁, rw v₁ refl)

pub sftp_config-IsDeep : IsDeep sftp_config
sftp_config-IsDeep c n =
    let (s₁, v₁) = slice-IsDeep c.host_keys n in
    let n₁ = (slice.deep_copy_into c.host_keys n).1 in
    let (s₂, v₂) = slice-IsDeep c.allowed_ssh_commands n₁ in
    (++-Span _ _ _ _ _ s₁ s₂, rw (v₁, v₂) refl)

pub ftp_config-IsDeep : IsDeep ftp_config
ftp_config-IsDeep c n =
    let (s₁, v₁) = pointer-IsDeep port_range flat-IsDeep c.passive_port_range n in
    let n₁ = ((pointer port_range).deep_copy_into c.passive_port_range n).1 in
    let (s₂, v₂) = pointer-IsDeep port_range flat-IsDeep c.active_port_range n₁ in
    (++-Span _ _ _ _ _ s₁ s₂, rw (v₁, v₂) refl)

pub sftpgo_config-IsDeep : IsDeep sftpgo_config
sftpgo_config-IsDeep c n =
    let (s₁, v₁) = pointer-IsDeep common_config flat-IsDeep c.common n in
    let n₁ = ((pointer common_config).deep_copy_into c.common n).1 in
    let (s₂, v₂) = pointer-IsDeep sftp_config sftp_config-IsDeep c.sftp n₁ in
    let n₂ = ((pointer sftp_config).deep_copy_into c.sftp n₁).1 in
    let (s₃, v₃) = pointer-IsDeep ftp_config ftp_config-IsDeep c.ftp n₂ in
    let n₃ = ((pointer ftp_config).deep_copy_into c.ftp n₂).1 in
    let (s₄, v₄) = pointer-IsDeep web_dav_config flat-IsDeep c.webdav n₃ in
    let n₄ = ((pointer web_dav_config).deep_copy_into c.webdav n₃).1 in
    let (s₅, v₅) = pointer-IsDeep http_config flat-IsDeep c.http n₄ in
    (
      ++-Span _ _ _ _ _ (++-Span _ _ _ _ _ (++-Span _ _ _ _ _ (++-Span _ _ _ _ _ s₁ s₂) s₃) s₄) s₅,
      rw (v₁, v₂, v₃, v₄, v₅) refl,
    )

pub sftp_go_server_spec-IsDeep :
    {K : Kinds} (F : Foreign K) → IsForeignDeep F → IsDeep (sftp_go_server_spec F)
sftp_go_server_spec-IsDeep F laws c n =
    let (s₁, v₁) = pointer-IsDeep flat flat-IsDeep c.replicas n in
    let n₁ = ((pointer flat).deep_copy_into c.replicas n).1 in
    let (s₂, v₂) = sftpgo_config-IsDeep c.config n₁ in
    let n₂ = (sftpgo_config.deep_copy_into c.config n₁).1 in
    let (s₃, v₃) = pointer-IsDeep volume_config volume_config-IsDeep c.data_volume n₂ in
    let n₃ = ((pointer volume_config).deep_copy_into c.data_volume n₂).1 in
    let (s₄, v₄) =
      pointer-IsDeep (database_config F) (database_config-IsDeep F laws) c.database n₃ in
    let n₄ = ((pointer (database_config F)).deep_copy_into c.database n₃).1 in
    let (s₅, v₅) =
      pointer-IsDeep F.resource_requirements.methods laws.resource_requirements c.resources n₄ in
    let n₅ = ((pointer F.resource_requirements.methods).deep_copy_into c.resources n₄).1 in
    let (s₆, v₆) = slice-IsDeep c.node_selector n₅ in
    let n₆ = (slice.deep_copy_into c.node_selector n₅).1 in
    let (s₇, v₇) = slice_of-IsDeep F.toleration.methods laws.toleration c.tolerations n₆ in
    let n₇ = ((slice_of F.toleration.methods).deep_copy_into c.tolerations n₆).1 in
    let (s₈, v₈) = pointer-IsDeep F.affinity.methods laws.affinity c.affinity n₇ in
    let n₈ = ((pointer F.affinity.methods).deep_copy_into c.affinity n₇).1 in
    let (s₉, v₉) = pointer-IsDeep flat flat-IsDeep c.admin_secret_ref n₈ in
    (
      ++-Span _ _ _ _ _
          (++-Span _ _ _ _ _
            (++-Span _ _ _ _ _
              (++-Span _ _ _ _ _
                (++-Span _ _ _ _ _
                  (++-Span _ _ _ _ _ (++-Span _ _ _ _ _ (++-Span _ _ _ _ _ s₁ s₂) s₃) s₄) s₅)
                s₆)
              s₇)
            s₈)
          s₉,
      rw (v₁, v₂, v₃, v₄, v₅, v₆, v₇, v₈, v₉) refl,
    )

pub sftp_go_server_status-IsDeep :
    {K : Kinds} (F : Foreign K) → IsForeignDeep F → IsDeep (sftp_go_server_status F)
sftp_go_server_status-IsDeep F laws c n =
    let (s₁, v₁) = slice_of-IsDeep F.condition.methods laws.condition c.conditions n in
    (s₁, rw v₁ refl)

pub sftp_go_server-IsDeep :
    {K : Kinds} (F : Foreign K) → IsForeignDeep F → IsDeep (sftp_go_server F)
sftp_go_server-IsDeep F laws c n =
    let (s₁, v₁) = laws.object_meta c.meta n in
    let n₁ = (F.object_meta.methods.deep_copy_into c.meta n).1 in
    let (s₂, v₂) = sftp_go_server_spec-IsDeep F laws c.spec n₁ in
    let n₂ = ((sftp_go_server_spec F).deep_copy_into c.spec n₁).1 in
    let (s₃, v₃) = sftp_go_server_status-IsDeep F laws c.status n₂ in
    (++-Span _ _ _ _ _ (++-Span _ _ _ _ _ s₁ s₂) s₃, rw (v₁, v₂, v₃) refl)

pub sftp_go_server_list-IsDeep :
    {K : Kinds} (F : Foreign K) → IsForeignDeep F → IsDeep (sftp_go_server_list F)
sftp_go_server_list-IsDeep F laws c n =
    let (s₁, v₁) = laws.list_meta c.list_meta n in
    let n₁ = (F.list_meta.methods.deep_copy_into c.list_meta n).1 in
    let (s₂, v₂) = slice_of-IsDeep (sftp_go_server F) (sftp_go_server-IsDeep F laws) c.items n₁ in
    (++-Span _ _ _ _ _ s₁ s₂, rw (v₁, v₂) refl)
