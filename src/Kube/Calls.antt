-- ===== src/Kube/Calls.antt =====
-- The calls that the controllers make on their environment. A run holds the world and, newest
-- first, what was asked of it with the answer. The event of a `CreateOrUpdate` names the object that
-- the caller's function copies from.
use sftpgo_operator.Base.{String, Bool, false, not, none, some, List, ◌∷◌, Result, ok, Exec, nat_eq}
use sftpgo_operator.Api.Meta.{Kinds, NamespacedName, ObjectMeta, ConditionStatus, Condition, Secret}
use sftpgo_operator.Api.ServerTypes.{SftpGoServer}
use sftpgo_operator.Api.UserTypes.{SftpGoUser}
use sftpgo_operator.Kube.Objects.{
  ConfigMap, PersistentVolumeClaim, Deployment, Service, OperationResult,
}
use sftpgo_operator.Kube.Env.{Request, Response, Env}

pub data Event (K : Kinds) : Type 0 where
  got_server : NamespacedName → Result (SftpGoServer K) → Event K
  got_user : NamespacedName → Result (SftpGoUser K) → Event K
  got_secret : NamespacedName → Result Secret → Event K
  got_deployment : NamespacedName → Result (Deployment K) → Event K
  put_server : SftpGoServer K → Result (Unit {0}) → Event K
  put_user : SftpGoUser K → Result (Unit {0}) → Event K
  put_server_status : SftpGoServer K → Result (Unit {0}) → Event K
  put_user_status : SftpGoUser K → Result (Unit {0}) → Event K
  applied_config_map : ConfigMap K → Result (OperationResult × ConfigMap K) → Event K
  applied_pvc :
      PersistentVolumeClaim K → Result (OperationResult × PersistentVolumeClaim K) → Event K
  applied_deployment : Deployment K → Result (OperationResult × Deployment K) → Event K
  applied_service : Service K → Result (OperationResult × Service K) → Event K
  sent : Request → Result Response → Event K

pub record Run {K : Kinds} (E : Env K) : Type 0 where
  pub world : E.World
  pub trace : List (Event K)

-- `ctrl.Result`
pub record Outcome : Type 0 where
  pub requeue : Bool

abbrev pub done : Outcome
done = record { requeue = false }

-- `!t.IsZero()`
abbrev pub is_deleting : {K : Kinds} → ObjectMeta K → Bool
is_deleting meta = elim meta.deletion_timestamp [ none ↦ false | some t ↦ not (nat_eq t 0) ]

-- A condition as the controllers write it, without a time.
abbrev pub condition : String → ConditionStatus → String → String → Condition
condition type status reason message = record {
  type = type;
  status = status;
  reason = reason;
  message = message;
  last_transition_time = 0;
}

module _ {K : Kinds} (E : Env K) where
  abbrev pub call :
      {A : Type 0} → (E.World → Result A × E.World) → (Result A → Event K) → Exec (Run E) A
  call op event s = let (r, w) = op s.world in (r, record { world = w; trace = event r ∷ s.trace })

  -- An operation that cannot fail and that no proof asks about.
  abbrev pub ask : {A : Type 0} → (E.World → A × E.World) → Exec (Run E) A
  ask op s = let (a, w) = op s.world in (ok a, record { world = w; trace = s.trace })
