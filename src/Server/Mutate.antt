-- ===== src/Server/Mutate.antt =====
-- The function that `CreateOrUpdate` runs on a live Deployment.
use sftpgo_operator.Base.{◌≡◌, ok, arith}
use sftpgo_operator.Api.Meta.{Kinds, ObjectMeta}
use sftpgo_operator.Api.ServerTypes.{SftpGoServer}
use sftpgo_operator.Kube.Objects.{Deployment}
use sftpgo_operator.Kube.Env.{Env}
use sftpgo_operator.Server.Reconcile.{mutate_deployment}

-- What controller-runtime documents of `SetControllerReference`: it sets an owner reference, and
-- an object that has the reference already stays as it is.
pub record IsReferenceSetter {K : Kinds} (E : Env K) : Type 0 where
  pub keeps_labels :
      (owner meta owned : ObjectMeta K)
      → E.set_controller_reference owner meta ≡ ok owned
      → owned.labels ≡ meta.labels
  pub keeps_annotations :
      (owner meta owned : ObjectMeta K)
      → E.set_controller_reference owner meta ≡ ok owned
      → owned.annotations ≡ meta.annotations
  pub settles :
      (owner meta owned : ObjectMeta K)
      → E.set_controller_reference owner meta ≡ ok owned
      → E.set_controller_reference owner owned ≡ ok owned

module _ {K : Kinds} (E : Env K) (laws : IsReferenceSetter E) (server : SftpGoServer K) where
  abbrev relabelled : ObjectMeta K → ObjectMeta K → ObjectMeta K
  relabelled desired live = record live {
    labels = desired.labels;
    annotations = desired.annotations;
  }

  reference_settles :
      (desired live owned : ObjectMeta K)
      → E.set_controller_reference server.meta (relabelled desired live) ≡ ok owned
      → E.set_controller_reference server.meta (relabelled desired owned) ≡ ok owned
  reference_settles desired live owned k = ground (
    arith,
    laws.keeps_labels server.meta (relabelled desired live) owned k,
    laws.keeps_annotations server.meta (relabelled desired live) owned k,
    laws.settles server.meta (relabelled desired live) owned k,
  )

  -- Where `SetControllerReference` keeps labels and annotations and is idempotent: a Deployment that
  -- was brought to the desired state has the desired specification and the live status, and a second
  -- run on it changes nothing.
  pub mutate_deployment-settles :
      (desired live live' : Deployment K)
      → mutate_deployment E server desired live ≡ ok live'
      → (live'.spec ≡ desired.spec)
        × (live'.status ≡ live.status)
        × (mutate_deployment E server desired live' ≡ ok live')
  unfolding mutate_deployment
  mutate_deployment-settles desired live live' h =
      ground (arith, reference_settles desired.meta live.meta live'.meta)
