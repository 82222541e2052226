-- ===== src/Copies/Defaults.antt =====
-- `applyDefaults` with the memory that it writes to.
use sftpgo_operator.Base.{
  ℕ, suc, ◌≤◌, ◌≡◌, refl, ap, ◌∙◌, some, ◌∷◌, pos, ℤ, is_zero, ◌==◌, if◌then◌else◌, true, arith,
}
use sftpgo_operator.Api.Meta.{Kinds}
use sftpgo_operator.Server.Defaults.{default_image, apply_defaults}
use sftpgo_operator.Copies.Memory.{Ref, nil, at, Alloc, ◌>>=◌, pure, alloc, target, addresses_at}
use sftpgo_operator.Copies.Foreign.{Foreign, IsForeignDeep}
use sftpgo_operator.Copies.Separate.{apart, Below, Above, Span-Above, Span-bounds, Above-apart}
use sftpgo_operator.Copies.Server.Types.{SftpGoServerSpec, SftpGoServer}
use sftpgo_operator.Copies.Server.Methods.{sftp_go_server_spec, sftp_go_server}
use sftpgo_operator.Copies.Server.Laws.{sftp_go_server_spec-IsDeep}

-- `one := int32(1); spec.Replicas = &one` where there is no number of replicas.
abbrev pub one_replica : Ref ℤ → Alloc (Ref ℤ)
one_replica nil = do one ← alloc; pure (at one (pos 1))
one_replica (at p r) = pure (at p r)

module _ {K : Kinds} (F : Foreign K) where
  abbrev pub fill : SftpGoServerSpec F → Alloc (SftpGoServerSpec F)
  fill spec = do
    replicas ← one_replica spec.replicas
    pure (record spec {
      image = if spec.image == "" then default_image else spec.image;
      replicas = replicas;
      sftp_port = if is_zero spec.sftp_port then pos 2022 else spec.sftp_port;
      web_port = if is_zero spec.web_port then pos 8080 else spec.web_port;
      storage_backend = if spec.storage_backend == "" then "sqlite" else spec.storage_backend;
    })

  -- The copy, whose fields are then written; the address is that of the server.
  unfoldable pub apply_defaults_in_memory : ℕ → SftpGoServer F → Alloc (Ref (SftpGoServerSpec F))
  apply_defaults_in_memory p server = do
    spec ← (sftp_go_server_spec F).deep_copy (at p server.spec)
    elim spec [ nil ↦ pure nil | at out copy ↦ do filled ← fill copy; pure (at out filled) ]

  fill-Above :
      (n m : ℕ) (r : Ref ℤ) (c : SftpGoServerSpec F)
      → n ≤ m
      → Above n ((sftp_go_server_spec F).addresses (record c { replicas = r }))
      → Above n ((sftp_go_server_spec F).addresses (fill (record c { replicas = r }) m).0)
  fill-Above n m nil c h above = (h, above)
  fill-Above n m (at p r) c h above = above

  fill_value :
      (m : ℕ) (r : Ref ℤ) (c : SftpGoServerSpec F) (s : SftpGoServer F)
      → (sftp_go_server_spec F).value (fill (record c { replicas = r }) m).0
        ≡ apply_defaults (record ((sftp_go_server F).value s) {
          spec = (sftp_go_server_spec F).value (record c { replicas = r });
        })
  unfolding apply_defaults
  fill_value m nil c s = refl
  fill_value m (at p r) c s = refl

  -- What `applyDefaults` returns stands for the specification with its defaults, and neither it nor
  -- anything that it refers to is in memory of the server that it was called with, where `n` is the
  -- first address not in use.
  pub apply_defaults_in_memory-apart :
      IsForeignDeep F
      → (p : ℕ) (s : SftpGoServer F) (n : ℕ)
      → Below n (addresses_at (sftp_go_server F).addresses (at p s))
      → let spec = (apply_defaults_in_memory p s n).0 in
        (target (sftp_go_server_spec F).value spec
          ≡ some (apply_defaults ((sftp_go_server F).value s)))
        × (apart
              (addresses_at (sftp_go_server_spec F).addresses spec)
              (addresses_at (sftp_go_server F).addresses (at p s))
            ≡ true)
  unfolding apply_defaults_in_memory
  apply_defaults_in_memory-apart laws p s n below =
      let (span, same) = sftp_go_server_spec-IsDeep F laws s.spec (suc n) in
      let copy = ((sftp_go_server_spec F).deep_copy_into s.spec (suc n)).0 in
      let m = ((sftp_go_server_spec F).deep_copy_into s.spec (suc n)).1 in
      let filled = (fill copy m).0 in
      let n_le_m = Span-bounds (suc n) m _ span in
      (
        ap some (
            fill_value m copy.replicas copy s
            ∙ ap (λ v. apply_defaults (record ((sftp_go_server F).value s) { spec = v })) same),
        Above-apart n (n ∷ (sftp_go_server_spec F).addresses filled)
            (addresses_at (sftp_go_server F).addresses (at p s))
            (
              omega arith,
              fill-Above n m copy.replicas copy (omega arith)
                  (Span-Above n (suc n) m _ (omega arith) span),
            )
            below,
      )
