-- ===== src/Kube/Env.antt =====
-- The code that is not in the repository, as operations on an unknown world: controller-runtime's
-- client, SFTPGo's REST interface behind `http.Client`, the clock, and the library functions that
-- the controllers call. Nothing is assumed of them here; a theorem names the laws that it needs.
use sftpgo_operator.Base.{String, Bool, Option, List, ℕ, Error, Result}
use sftpgo_operator.Base.Text.{Dict}
use sftpgo_operator.Api.Meta.{Kinds, NamespacedName, ObjectMeta, Condition, Secret, Time}
use sftpgo_operator.Api.ServerTypes.{SftpGoServer}
use sftpgo_operator.Api.UserTypes.{SftpGoUser}
use sftpgo_operator.Kube.Objects.{
  ConfigMap, PersistentVolumeClaim, Deployment, Service, OperationResult,
}
use sftpgo_operator.Sftpgo.Json.{Json}

pub record Request : Type 0 where
  pub method : String
  pub url : String
  pub basic_auth : Option (String × String)
  pub headers : Dict String
  pub body : Option Json

-- The body is what a JSON decoder reads from it.
pub record Response : Type 0 where
  pub status_code : ℕ
  pub body : Result Json

pub record Env (K : Kinds) : Type 1 where
  pub World : Type 0
  -- `client.Get`
  pub get_server : NamespacedName → World → Result (SftpGoServer K) × World
  pub get_user : NamespacedName → World → Result (SftpGoUser K) × World
  pub get_secret : NamespacedName → World → Result Secret × World
  pub get_deployment : NamespacedName → World → Result (Deployment K) × World
  -- `client.Update` and `client.Status().Update`
  pub update_server : SftpGoServer K → World → Result (Unit {0}) × World
  pub update_user : SftpGoUser K → World → Result (Unit {0}) × World
  pub update_server_status : SftpGoServer K → World → Result (Unit {0}) × World
  pub update_user_status : SftpGoUser K → World → Result (Unit {0}) × World
  -- `controllerutil.CreateOrUpdate`, with the object handed in and the function that mutates it
  pub create_or_update_config_map :
      ConfigMap K
      → (ConfigMap K → Result (ConfigMap K))
      → World
      → Result (OperationResult × ConfigMap K) × World
  pub create_or_update_pvc :
      PersistentVolumeClaim K
      → (PersistentVolumeClaim K → Result (PersistentVolumeClaim K))
      → World
      → Result (OperationResult × PersistentVolumeClaim K) × World
  pub create_or_update_deployment :
      Deployment K
      → (Deployment K → Result (Deployment K))
      → World
      → Result (OperationResult × Deployment K) × World
  pub create_or_update_service :
      Service K
      → (Service K → Result (Service K))
      → World
      → Result (OperationResult × Service K) × World
  -- `meta.SetStatusCondition`, which reads the clock
  pub set_status_condition : List Condition → Condition → World → List Condition × World
  -- `time.Now`
  pub now : World → Time × World
  -- `http.Client.Do`
  pub send : Request → World → Result Response × World
  -- the error of `http.NewRequest` at a method and a URL
  pub request_error : String → String → Option Error
  -- `controllerutil`
  pub contains_finalizer : ObjectMeta K → String → Bool
  pub add_finalizer : ObjectMeta K → String → ObjectMeta K
  pub remove_finalizer : ObjectMeta K → String → ObjectMeta K
  -- the owner, and the metadata that the reference is put in
  pub set_controller_reference : ObjectMeta K → ObjectMeta K → Result (ObjectMeta K)
  -- `resource.ParseQuantity`, with the value that it returns beside an error
  pub parse_quantity : String → K.Quantity × Option Error
  -- `time.Parse(time.RFC3339, s)`
  pub parse_time : String → Result Time
