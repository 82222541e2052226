-- ===== src/Tests/Service.antt =====
-- An SFTPGo that keeps the users that it is sent, and the sample user in it.
use text.Mathlib.TextLemmas.{append_assoc}
use sftpgo_operator.Base.{
  String, ◌≡◌, ◌≢◌, refl, sym, ap, ◌∙◌, ◌<>◌, ◌==◌, Option, none, some, [], ℤ, Result, ok, err,
  arith, eq_iff, eq_refl, inl, if◌then◌else◌,
}
use sftpgo_operator.Kube.Env.{Env, Request, Response}
use sftpgo_operator.Kube.Calls.{done}
use sftpgo_operator.Sftpgo.Json.{Json, Fields, null, bool, int, real, str, arr, obj, close, field}
use sftpgo_operator.Sftpgo.Payload.{
  UserPayload, user_from_cr, encode_payload, with_denied_ip, with_allowed_ip, with_max_sessions,
  with_bandwidth, with_quota, with_public_keys, with_password,
}
use sftpgo_operator.Sftpgo.Decode.{decode_token, decode_payload}
use sftpgo_operator.Sftpgo.Client.{Session, get_user, create_user, get_token, set_auth, fetch_token}
use sftpgo_operator.Sftpgo.Client.Service.{IsService}
use sftpgo_operator.User.Reconcile.{sync, upsert, conclude, finish}
use sftpgo_operator.User.Delivered.{sync-Delivered}
use sftpgo_operator.Tests.World.{
  sample_kinds, missing, set_condition, answer, token_body, ends_with_token, lookup,
}
use sftpgo_operator.Tests.Samples.{
  sample_user, sample_env, sample_client, sample_server, sample_deployment,
}

-- The users by their URLs.
abbrev Users : Type 0
Users = String → Option Json

abbrev username_in : Fields → String
username_in close = ""
username_in (field key (str v) rest) = if key == "username" then v else username_in rest
username_in (field key (int v) rest) = username_in rest
username_in (field key null rest) = username_in rest
username_in (field key (bool v) rest) = username_in rest
username_in (field key (real v) rest) = username_in rest
username_in (field key (arr v) rest) = username_in rest
username_in (field key (obj v) rest) = username_in rest

abbrev username_of : Json → String
username_of (obj fields) = username_in fields
username_of null = ""
username_of (bool b) = ""
username_of (int n) = ""
username_of (real s) = ""
username_of (str s) = ""
username_of (arr l) = ""

username_of-encode_payload : (p : UserPayload) → username_of (encode_payload p) ≡ p.username
unfolding encode_payload
username_of-encode_payload p = ground arith

abbrev put : String → Json → Users → Users
put url j w other = if url == other then some j else w other

put_here : (url : String) (j : Json) (w : Users) → put url j w url ≡ some j
put_here url j w = rw (eq_refl url) refl

abbrev keep : Option Json → (Json → String) → Users → Result Response × Users
keep none url w = (answer 400 null, w)
keep (some j) url w = (answer 200 j, put (url j) j w)

abbrev serve : Request → Users → Result Response × Users
serve req w =
    if req.method == "POST"
    then keep req.body (λ j. req.url <> ("/" <> username_of j)) w
    else if req.method == "PUT"
    then keep req.body (λ j. req.url) w
    else if ends_with_token req.url
    then (answer 200 token_body, w)
    else (lookup (w req.url), w)

abbrev keeping : Env sample_kinds
keeping = record {
  World = Users;
  get_server = λ key w. (ok sample_server, w);
  get_user = λ key w. (err missing, w);
  get_secret = λ key w. (err missing, w);
  get_deployment = λ key w. (ok sample_deployment, w);
  update_server = λ s w. (ok tt, w);
  update_user = λ u w. (ok tt, w);
  update_server_status = λ s w. (ok tt, w);
  update_user_status = λ u w. (ok tt, w);
  create_or_update_config_map = λ o f w. (err missing, w);
  create_or_update_pvc = λ o f w. (err missing, w);
  create_or_update_deployment = λ o f w. (err missing, w);
  create_or_update_service = λ o f w. (err missing, w);
  set_status_condition = λ cs c w. (set_condition cs c, w);
  now = λ w. (100, w);
  send = serve;
  request_error = λ method url. none;
  contains_finalizer = sample_env.contains_finalizer;
  add_finalizer = sample_env.add_finalizer;
  remove_finalizer = sample_env.remove_finalizer;
  set_controller_reference = sample_env.set_controller_reference;
  parse_quantity = sample_env.parse_quantity;
  parse_time = sample_env.parse_time;
}

list_url :
    (base name : String)
    → (base <> "/api/v2/users") <> ("/" <> name) ≡ base <> ("/api/v2/users/" <> name)
list_url base name =
    append_assoc base "/api/v2/users" ("/" <> name)
    ∙ ap (λ s. base <> s) (sym (append_assoc "/api/v2/users" "/" name))

abbrev service : IsService keeping
service = record {
  user_at = λ w. w;
  takes_post = λ base p req w resp method url body answered success.
      rw
        (
          method,
          body,
          url,
          list_url base (username_of (encode_payload p)),
          username_of-encode_payload p,
        )
        (put_here (base <> ("/api/v2/users/" <> p.username)) (encode_payload p) w);
  takes_put = λ base username p req w resp method url body answered success.
      rw (method, body, url) (put_here _ (encode_payload p) w);
  now_user_at = λ w. refl;
  set_status_condition_user_at = λ cs c w. refl;
  update_user_status_user_at = λ u w. refl;
}

abbrev session : Session keeping
session = record { client = sample_client; run = record { world = λ url. none; trace = [] } }

sync-sample_user : (sync keeping sample_user "pw" [] session).0 ≡ ok done
unfolding sync get_user upsert create_user conclude finish get_token set_auth fetch_token
    decode_token decode_payload encode_payload user_from_cr with_denied_ip with_allowed_ip
    with_max_sessions with_bandwidth with_quota with_public_keys with_password
sync-sample_user = refl

alice_named : ◌≢◌ {A = String} "alice" ""
alice_named = ground (arith, eq_iff "alice" "")

password_given : ◌≢◌ {A = String} "pw" ""
password_given = ground (arith, eq_iff "pw" "")

sync-Delivered_example :
    (n : ℤ) × ((sync keeping sample_user "pw" [] session).1.run.world
        "http://main.files.svc.cluster.local:8080/api/v2/users/alice"
      ≡ some (encode_payload (record (user_from_cr sample_user.spec "pw" []) { id = n })))
sync-Delivered_example =
    sync-Delivered keeping service sample_user "pw" [] session done alice_named (inl password_given)
      sync-sample_user
