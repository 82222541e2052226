-- ===== src/Tests/World.antt =====
-- A cluster with one server, one secret and one deployment, and an SFTPGo with one user or none.
use sftpgo_operator.Base.{
  ℕ, String, Bool, true, false, Option, none, some, List, [], ◌∷◌, Error, Result, ok, err, ◌==◌,
  if◌then◌else◌, ◌≡◌, ◌≢◌, refl, Bool-cases, inl, inr, arith, eq_iff, eq_refl, sym,
}
use sftpgo_operator.Api.Meta.{Kinds, ObjectMeta, Condition, Time}
use sftpgo_operator.Api.ServerTypes.{SftpGoServer}
use sftpgo_operator.Kube.Objects.{Deployment, OperationResult, created}
use sftpgo_operator.Kube.Env.{Request, Response, Env}
use sftpgo_operator.Sftpgo.Json.{Json, null, str, obj, close, field}
use sftpgo_operator.Server.Mutate.{IsReferenceSetter}
use sftpgo_operator.Server.Conditions.{find_condition, IsConditionSetter}

-- Quantities are their texts, owners their uids.
abbrev pub sample_kinds : Kinds
sample_kinds = record {
  ResourceRequirements = Unit;
  Toleration = Unit;
  Affinity = Unit;
  Quantity = String;
  OwnerReference = String;
}

-- The user in SFTPGo, if there is one, and the time.
pub record World : Type 0 where
  pub in_sftpgo : Option Json
  pub clock : Time

abbrev pub missing : Error
missing = record { is_not_found = true; message = "not found" }

abbrev pub answered : {A : Type 0} → A → World → Result A × World
answered a w = (ok a, w)

abbrev pub ends_with_token : String → Bool
ends_with_token url = url == "http://main.files.svc.cluster.local:8080/api/v2/token"

abbrev pub answer : ℕ → Json → Result Response
answer code body = ok (record { status_code = code; body = ok body })

abbrev pub token_body : Json
token_body = obj (field "access_token" (str "t1") close)

abbrev pub body_of : Option Json → Json
body_of none = null
body_of (some j) = j

-- SFTPGo's REST interface for one user.
abbrev pub lookup : Option Json → Result Response
lookup none = answer 404 null
lookup (some j) = answer 200 j

abbrev serve : Request → World → Result Response × World
serve req w =
    if ends_with_token req.url
    then (answer 200 token_body, w)
    else if req.method == "GET"
    then (lookup w.in_sftpgo, w)
    else if req.method == "DELETE"
    then (answer 200 null, record w { in_sftpgo = none })
    else (answer 200 (body_of req.body), record w { in_sftpgo = some (body_of req.body) })

abbrev contains : List String → String → Bool
contains [] f = false
contains (g ∷ l) f = if g == f then true else contains l f

abbrev without : List String → String → List String
without [] f = []
without (g ∷ l) f = if g == f then l else g ∷ without l f

-- One controller at most, as controller-runtime has it.
abbrev own : String → List String → Result (List String)
own uid [] = ok (uid ∷ [])
own uid (o ∷ l) =
    if o == uid
    then ok (o ∷ l)
    else err (record { is_not_found = false; message = "already owned" })

abbrev with_owners :
    ObjectMeta sample_kinds → Result (List String) → Result (ObjectMeta sample_kinds)
with_owners meta (ok l) = ok (record meta { owner_references = l })
with_owners meta (err e) = err e

abbrev pub set_condition : List Condition → Condition → List Condition
set_condition [] c = c ∷ []
set_condition (d ∷ l) c = if d.type == c.type then c ∷ l else d ∷ set_condition l c

abbrev created_object : {A : Type 0} → Result A → World → Result (OperationResult × A) × World
created_object (ok a) w = (ok (created, a), w)
created_object (err e) w = (err e, w)

module _ (the_server : SftpGoServer sample_kinds) (the_deployment : Deployment sample_kinds) where
  abbrev pub cluster : Env sample_kinds
  cluster = record {
    World = World;
    get_server = λ key. answered the_server;
    get_user = λ key w. (err missing, w);
    get_secret =
        λ key. answered (record { contents = ("username", "admin") ∷ ("password", "secret") ∷ [] });
    get_deployment = λ key. answered the_deployment;
    update_server = λ s. answered tt;
    update_user = λ u. answered tt;
    update_server_status = λ s. answered tt;
    update_user_status = λ u. answered tt;
    create_or_update_config_map = λ o f. created_object (f o);
    create_or_update_pvc = λ o f. created_object (f o);
    create_or_update_deployment = λ o f. created_object (f o);
    create_or_update_service = λ o f. created_object (f o);
    set_status_condition = λ cs c w. (set_condition cs c, w);
    now = λ w. (w.clock, w);
    send = serve;
    request_error = λ method url. none;
    contains_finalizer = λ meta f. contains meta.finalizers f;
    add_finalizer = λ meta f. record meta { finalizers = f ∷ meta.finalizers };
    remove_finalizer = λ meta f. record meta { finalizers = without meta.finalizers f };
    set_controller_reference = λ owner meta. with_owners meta (own owner.uid meta.owner_references);
    parse_quantity = λ s. (s, none);
    parse_time = λ s. err (record { is_not_found = false; message = "no time" });
  }

own_settles : (uid : String) (l l' : List String) → own uid l ≡ ok l' → own uid l' ≡ ok l'
own_settles uid [] l' h = ground (arith, eq_refl uid)
own_settles uid (o ∷ l) l' h = ground arith

-- The cluster obeys what is documented of `SetControllerReference`.
pub cluster-IsReferenceSetter :
    (s : SftpGoServer sample_kinds) (d : Deployment sample_kinds) → IsReferenceSetter (cluster s d)
cluster-IsReferenceSetter s d = record {
  keeps_labels = λ owner meta owned h. ground arith;
  keeps_annotations = λ owner meta owned h. ground arith;
  settles = λ owner meta owned h.
      ground (arith, own_settles owner.uid meta.owner_references owned.owner_references);
}

set_condition_keeps :
    (cs : List Condition) (c : Condition) (type : String)
    → type ≢ c.type
    → find_condition type (set_condition cs c) ≡ find_condition type cs
set_condition_keeps cs c type h = elim (Bool-cases (c.type == type)) [
  | inl e ↦ absurd (h (sym ((eq_iff c.type type).0 e)))
  | inr e ↦ go cs e
]
  where
    go :
        (l : List Condition)
        → (c.type == type) ≡ false
        → find_condition type (set_condition l c) ≡ find_condition type l
    go [] e = rw e refl
    go (d ∷ l) e =
        ground (
          arith,
          eq_iff d.type type,
          eq_iff d.type c.type,
          eq_refl type,
          eq_iff c.type type,
          go l e,
        )

-- And what is documented of `SetStatusCondition`.
pub cluster-IsConditionSetter :
    (s : SftpGoServer sample_kinds) (d : Deployment sample_kinds) → IsConditionSetter (cluster s d)
cluster-IsConditionSetter s d = record {
  keeps_others = λ cs c w type h. set_condition_keeps cs c type h;
}
