-- ===== src/Server/Applies.antt =====
-- When a reconcile of a server touches the objects of the server, and when it does not.
use sftpgo_operator.Base.{
  ◌≡◌, refl, ◌⊎◌, inl, inr, true, false, List, [], ◌∷◌, Bool-cases, Result-cases,
}
use sftpgo_operator.Api.Meta.{Kinds}
use sftpgo_operator.Api.ServerTypes.{SftpGoServer}
use sftpgo_operator.Kube.Env.{Env}
use sftpgo_operator.Kube.Calls.{
  Run, Event, applied_config_map, applied_pvc, applied_deployment, applied_service, is_deleting,
}
use sftpgo_operator.Server.Defaults.{server_finalizer}
use sftpgo_operator.Server.Reconcile.{reconcile_deleted, reconcile_server}

module _ {K : Kinds} where
  -- The calls of a trace that create or update an object.
  abbrev pub applications : List (Event K) → List (Event K)
  applications [] = []
  applications (applied_config_map o r ∷ t) = applied_config_map o r ∷ applications t
  applications (applied_pvc o r ∷ t) = applied_pvc o r ∷ applications t
  applications (applied_deployment o r ∷ t) = applied_deployment o r ∷ applications t
  applications (applied_service o r ∷ t) = applied_service o r ∷ applications t
  applications (_ ∷ t) = applications t

module _ {K : Kinds} (E : Env K) (server : SftpGoServer K) (s : Run E) where
  applications_if_unowned :
      E.contains_finalizer server.meta server_finalizer ≡ false
      → applications (reconcile_server E server s).1.trace ≡ applications s.trace
  unfolding reconcile_server
  applications_if_unowned k =
      let marked : SftpGoServer K = record server {
        meta = E.add_finalizer server.meta server_finalizer;
      } in
      rw k (elim (Result-cases (E.update_server marked s.world).0) [
        | inl (x, h) ↦ rw h refl
        | inr (x, h) ↦ rw h refl
      ])

  applications_if_deleting :
      E.contains_finalizer server.meta server_finalizer ≡ true
      → is_deleting server.meta ≡ true
      → applications (reconcile_server E server s).1.trace ≡ applications s.trace
  unfolding reconcile_server reconcile_deleted
  applications_if_deleting k d =
      let released : SftpGoServer K = record server {
        meta = E.remove_finalizer server.meta server_finalizer;
      } in
      rw (k, d)
        (elim (Result-cases (E.update_server released s.world).0) [
          | inl (x, h) ↦ rw h refl
          | inr (x, h) ↦ rw h refl
        ])

  -- A reconcile creates and updates no object if the custom resource lacks the finalizer or is
  -- being deleted, so nothing is brought back that the deletion of the server takes away.
  pub reconcile_server-applications :
      (E.contains_finalizer server.meta server_finalizer ≡ false) ⊎ (is_deleting server.meta ≡ true)
      → applications (reconcile_server E server s).1.trace ≡ applications s.trace
  reconcile_server-applications (inl k) = applications_if_unowned k
  reconcile_server-applications (inr d) =
      elim (Bool-cases (E.contains_finalizer server.meta server_finalizer)) [
        | inl k ↦ applications_if_deleting k d
        | inr k ↦ applications_if_unowned k
      ]
