-- ===== src/Tests/Objects.antt =====
-- A cluster that keeps the objects of servers, and fills in what they leave open.
use sftpgo_operator.Base.{
  String, Bool, Option, none, some, List, [], ◌∷◌, Result, ok, err, ◌==◌, ◌&&◌, if◌then◌else◌, ◌≡◌,
  refl, sym, ap, ◌∙◌, err-ne-ok, Result-cases, inl, inr, arith, eq_refl, subst, ◌≢◌,
}
use sftpgo_operator.Api.Meta.{NamespacedName, ObjectMeta}
use sftpgo_operator.Kube.Objects.{
  OperationResult, unchanged, created, updated, ConfigMap, PersistentVolumeClaim, Container,
  DeploymentSpec, Deployment, Service,
}
use sftpgo_operator.Kube.Env.{Env}
use sftpgo_operator.Kube.Calls.{Run}
use sftpgo_operator.Server.Store.{
  Objects, key_of, live_or, IsCreateOrUpdate, IsCluster, service_type,
}
use sftpgo_operator.Tests.World.{sample_kinds, missing, set_condition, cluster}
use sftpgo_operator.Tests.Samples.{sample_server, sample_deployment}

abbrev same_key : NamespacedName → NamespacedName → Bool
same_key k l = (k.namespace == l.namespace) && (k.name == l.name)

abbrev put :
    {A : Type 0} → NamespacedName → A → (NamespacedName → Option A) → NamespacedName → Option A
put key a m k = if same_key key k then some a else m k

put_here :
    {A : Type 0} (key : NamespacedName) (a : A) (m : NamespacedName → Option A)
    → put key a m key ≡ some a
put_here key a m = ground (arith, eq_refl key.namespace, eq_refl key.name)

abbrev ObjectsOf : Type 0
ObjectsOf = Objects sample_kinds

-- What the API server fills in.
abbrev filled_meta : ObjectMeta sample_kinds → ObjectMeta sample_kinds
filled_meta meta = record meta { uid = "1" }

abbrev filled_config_map : ConfigMap sample_kinds → ConfigMap sample_kinds
filled_config_map o = record o { meta = filled_meta o.meta }

abbrev filled_pvc : PersistentVolumeClaim sample_kinds → PersistentVolumeClaim sample_kinds
filled_pvc o = record o { meta = filled_meta o.meta }

abbrev pull_policy : String → String
pull_policy policy = if policy == "" then "Always" else policy

abbrev filled_containers : List (Container sample_kinds) → List (Container sample_kinds)
filled_containers [] = []
filled_containers (c ∷ l) =
    record c { image_pull_policy = pull_policy c.image_pull_policy } ∷ filled_containers l

abbrev filled_spec : DeploymentSpec sample_kinds → DeploymentSpec sample_kinds
filled_spec spec = record spec {
  pod = record spec.pod { containers = filled_containers spec.pod.containers };
}

abbrev filled_deployment : Deployment sample_kinds → Deployment sample_kinds
filled_deployment o = record o { meta = filled_meta o.meta; spec = filled_spec o.spec }

abbrev filled_service : Service sample_kinds → Service sample_kinds
filled_service o = record o {
  meta = filled_meta o.meta;
  spec = record o.spec { type = service_type o.spec.type };
}

pull_policy_again : (p : String) → pull_policy p ≡ pull_policy (pull_policy p)
pull_policy_again p = ground arith

pub filled_containers_again :
    (l : List (Container sample_kinds))
    → filled_containers l ≡ filled_containers (filled_containers l)
filled_containers_again [] = refl
filled_containers_again (c ∷ l) =
    ground (arith, pull_policy_again c.image_pull_policy, filled_containers_again l)

pub service_type_again : (t : String) → service_type t ≡ service_type (service_type t)
service_type_again t = ground arith

abbrev filled : {A : Type 0} → (A → A) → Option A → Option A
filled fill none = none
filled fill (some a) = some (fill a)

-- The objects as they are seen.
abbrev pub seen : ObjectsOf → ObjectsOf
seen w = record {
  config_map = λ k. filled filled_config_map (w.config_map k);
  pvc = λ k. filled filled_pvc (w.pvc k);
  deployment = λ k. filled filled_deployment (w.deployment k);
  service = λ k. filled filled_service (w.service k);
}

module _ {A : Type 0} (stored : ObjectsOf → NamespacedName → Option A)
    (with_stored : (NamespacedName → Option A) → ObjectsOf → ObjectsOf) (key : A → NamespacedName)
    (fill : A → A) where
  abbrev report : Option A → OperationResult
  report none = created
  report (some live) = updated

  abbrev kept : A → Result A → ObjectsOf → Result (OperationResult × A) × ObjectsOf
  kept o (err e) w = (err e, w)
  kept o (ok a) w =
      (ok (report (stored w (key o)), fill a), with_stored (put (key o) a (stored w)) w)

  abbrev keep : A → (A → Result A) → ObjectsOf → Result (OperationResult × A) × ObjectsOf
  keep o f w = kept o (f (live_or o (stored (seen w) (key o)))) w

  kept_changes :
      (o : A) (made : Result A) (w : ObjectsOf) (r : OperationResult × A)
      → (kept o made w).0 ≡ ok r
      → r.0 ≢ unchanged
  kept_changes o made w r h p = ground arith

  filled_Admits :
      (Admits : A → A → Type 0) (found : Option A) (a : A)
      → ((b : A) → Admits (fill b) (fill b))
      → filled fill found ≡ some a
      → Admits a a
  filled_Admits Admits none a complete h = ground arith
  filled_Admits Admits (some b) a complete h =
      let same : fill b ≡ a = ground arith in subst (λ x. Admits x x) same (complete b)

  pub keep-IsCreateOrUpdate :
      (SameOthers : ObjectsOf → ObjectsOf → Type 0) (Admits : A → A → Type 0)
      → ((w : ObjectsOf) (k : NamespacedName) → stored (seen w) k ≡ filled fill (stored w k))
      → ((m : NamespacedName → Option A) (w : ObjectsOf) → stored (with_stored m w) ≡ m)
      → ((m : NamespacedName → Option A) (w : ObjectsOf)
          → SameOthers (seen w) (seen (with_stored m w)))
      → ((a : A) → Admits a (fill a))
      → ((a : A) → Admits (fill a) (fill a))
      → IsCreateOrUpdate seen stored SameOthers key Admits keep
  keep-IsCreateOrUpdate SameOthers Admits sees stores_it others admits complete = record {
    stores = λ o f w r h. elim (Result-cases (f (live_or o (stored (seen w) (key o))))) [
      | inr (e, k) ↦ absurd (err-ne-ok e r (rw k at h))
      | inl (a, k) ↦ rw k (
        a,
        fill a,
        refl,
        sees _ (key o)
            ∙ ap (λ m. filled fill (m (key o))) (stores_it (put (key o) a (stored w)) w)
            ∙ ap (filled fill) (put_here (key o) a (stored w)),
        inr (admits a),
        others _ w,
      )
    ];
    reports = λ o f w r h p. absurd (kept_changes o _ w r h p);
    complete = λ w k a h. filled_Admits Admits (stored w k) a complete (sym (sees w k) ∙ h);
  }

abbrev small_env : Env sample_kinds
small_env = cluster sample_server sample_deployment

abbrev found_or : {A : Type 0} → Option A → Result A
found_or none = err missing
found_or (some a) = ok a

abbrev pub keeping : Env sample_kinds
keeping = record {
  World = ObjectsOf;
  get_server = λ key w. (ok sample_server, w);
  get_user = λ key w. (err missing, w);
  get_secret = λ key w. (err missing, w);
  get_deployment = λ key w. (found_or ((seen w).deployment key), w);
  update_server = λ s w. (ok tt, w);
  update_user = λ u w. (ok tt, w);
  update_server_status = λ s w. (ok tt, w);
  update_user_status = λ u w. (ok tt, w);
  create_or_update_config_map =
      keep (λ w. w.config_map) (λ m w. record w { config_map = m }) (λ o. key_of o.meta)
        filled_config_map;
  create_or_update_pvc =
      keep (λ w. w.pvc) (λ m w. record w { pvc = m }) (λ o. key_of o.meta) filled_pvc;
  create_or_update_deployment =
      keep (λ w. w.deployment) (λ m w. record w { deployment = m }) (λ o. key_of o.meta)
        filled_deployment;
  create_or_update_service =
      keep (λ w. w.service) (λ m w. record w { service = m }) (λ o. key_of o.meta) filled_service;
  set_status_condition = λ cs c w. (set_condition cs c, w);
  now = λ w. (0, w);
  send = λ req w. (err missing, w);
  request_error = λ method url. none;
  contains_finalizer = small_env.contains_finalizer;
  add_finalizer = small_env.add_finalizer;
  remove_finalizer = small_env.remove_finalizer;
  set_controller_reference = small_env.set_controller_reference;
  parse_quantity = λ s. (s, none);
  parse_time = λ s. err missing;
}

abbrev pub kept_objects : IsCluster keeping
kept_objects = record {
  view = seen;
  defaulted = filled_spec;
  config_maps =
      keep-IsCreateOrUpdate _ _ _ _ _ _ (λ w k. refl) (λ m w. refl) (λ m w. refl)
        (λ a. ((refl, refl, refl), refl)) (λ a. ((refl, refl, refl), refl));
  pvcs =
      keep-IsCreateOrUpdate _ _ _ _ _ _ (λ w k. refl) (λ m w. refl) (λ m w. refl)
        (λ a. (refl, refl, refl)) (λ a. (refl, refl, refl));
  deployments =
      keep-IsCreateOrUpdate _ _ _ _ _ _ (λ w k. refl) (λ m w. refl) (λ m w. refl)
        (λ a. ((refl, refl, refl), refl))
        (λ a. (
          (refl, refl, refl),
          ap (λ l. record (filled_spec a.spec) { pod = record a.spec.pod { containers = l } })
              (filled_containers_again a.spec.pod.containers),
        ));
  services =
      keep-IsCreateOrUpdate _ _ _ _ _ _ (λ w k. refl) (λ m w. refl) (λ m w. refl)
        (λ a. ((refl, refl, refl), refl, refl, refl))
        (λ a. ((refl, refl, refl), refl, refl, service_type_again a.spec.type));
  get_deployment_view = λ key w. refl;
  update_server_status_view = λ s w. refl;
  set_status_condition_view = λ cs c w. refl;
}

abbrev pub empty_cluster : Run keeping
empty_cluster = record {
  world = record {
    config_map = λ k. none;
    pvc = λ k. none;
    deployment = λ k. none;
    service = λ k. none;
  };
  trace = [];
}
