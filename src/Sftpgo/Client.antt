-- ===== src/Sftpgo/Client.antt =====
-- `Client` and its methods. A session is the client, which its methods change, in a run.
pub mod Token
pub mod Requests
pub mod Url
pub mod Service
use sftpgo_operator.Base.{
  ℕ, ◌+◌, ◌*◌, ◌^◌, String, ◌<>◌, Bool, true, false, not, ◌&&◌, ◌||◌, Option, none, some, List, [],
  ◌∷◌, pos, Error, Result, ok, err, Exec, pure, raise, lift, ◌>>=◌, ◌>>◌, ltb, nat_eq, ◌==◌,
  if◌then◌else◌,
}
use sftpgo_operator.Base.Text.{decimal}
use sftpgo_operator.Base
use sftpgo_operator.Api.Meta.{Kinds, Time}
use sftpgo_operator.Kube.Env.{Request, Response, Env}
use sftpgo_operator.Kube.Calls.{Run, sent, call, ask}
use sftpgo_operator.Sftpgo.Json.{Json}
use sftpgo_operator.Sftpgo.Payload.{UserPayload, encode_payload}
use sftpgo_operator.Sftpgo.Decode.{set_entry, decode_payload, decode_token}

pub record Client : Type 0 where
  pub base_url : String
  pub username : String
  pub password : String
  pub token : String
  pub token_exp : Time

unfoldable pub new_client : String → String → String → Client
new_client base_url username password = record {
  base_url = base_url;
  username = username;
  password = password;
  token = "";
  token_exp = 0;
}

unfoldable pub service_url : String → String → Base.ℤ → String
unfolding decimal
service_url name namespace port =
    "http://" <> (name <> ("." <> (namespace <> (".svc.cluster.local:" <> decimal port))))

pub record Session {K : Kinds} (E : Env K) : Type 0 where
  pub client : Client
  pub run : Run E

abbrev pub minutes : ℕ → Time
minutes n = n * (60 * 10 ^ 9)

abbrev pub api_error : ℕ → Error
api_error code = record { is_not_found = false; message = "API returned " <> decimal (pos code) }

abbrev empty_token : Error
empty_token = record { is_not_found = false; message = "empty access token" }

abbrev pub set_header : String → String → Request → Request
set_header key value req = record req { headers = set_entry key value req.headers }

module _ {K : Kinds} (E : Env K) where
  abbrev pub in_run : {A : Type 0} → Exec (Run E) A → Exec (Session E) A
  in_run m s = let (r, run) = m s.run in (r, record { client = s.client; run = run })

  abbrev the_client : Exec (Session E) Client
  the_client s = (ok s.client, s)

  abbrev set_token : String → Exec (Session E) Unit
  set_token token s = (ok tt, record s { client = record s.client { token = token } })

  abbrev set_token_exp : Time → Exec (Session E) Unit
  set_token_exp t s = (ok tt, record s { client = record s.client { token_exp = t } })

  abbrev new_request : String → String → Option Json → Exec (Session E) Request
  new_request method url body = elim (E.request_error method url) [
    | some e ↦ raise e
    | none ↦
        pure (record { method = method; url = url; basic_auth = none; headers = []; body = body })
  ]

  -- `c.HTTPClient.Do(req)`
  pub send : Request → Exec (Session E) Response
  send req = in_run (call E (E.send req) (sent req))

  abbrev now : Exec (Session E) Time
  now = in_run (ask E E.now)

  -- `c.token != "" && time.Until(c.tokenExp) > 2*time.Minute`
  unfoldable pub has_fresh_token : Exec (Session E) Bool
  has_fresh_token = do
    c ← the_client
    if c.token == "" then pure false else do t ← now; pure (ltb (t + minutes 2) c.token_exp)

  -- The instant that `tokenExp` is set to.
  unfoldable pub expiry : String → Exec (Session E) Time
  expiry expires_at =
      let later : Exec (Session E) Time = (do t ← now; pure (t + minutes 15)) in
      if expires_at == ""
      then later
      else elim (E.parse_time expires_at) [ ok t ↦ pure t | err e ↦ later ]

  unfoldable pub fetch_token : Exec (Session E) String
  unfolding send expiry
  fetch_token = do
    c ← the_client
    req ← new_request "GET" (c.base_url <> "/api/v2/token") none
    resp ← send (record req { basic_auth = some (c.username, c.password) })
    if not (nat_eq resp.status_code 200) then raise (api_error resp.status_code) else do
      body ← lift resp.body
      tr ← lift (decode_token body)
      if tr.access_token == "" then raise empty_token else do
        set_token tr.access_token
        t ← expiry tr.expires_at
        set_token_exp t
        pure tr.access_token

  unfoldable pub get_token : Exec (Session E) String
  unfolding has_fresh_token fetch_token
  get_token = do
    fresh ← has_fresh_token
    c ← the_client
    if fresh then pure c.token else fetch_token

  unfoldable pub set_auth : Request → Exec (Session E) Request
  set_auth req = do
    c ← the_client
    if c.username == "" || c.password == ""
        then pure req
        else do token ← get_token; pure (set_header "Authorization" ("Bearer " <> token) req)

  unfoldable pub get_user : String → Exec (Session E) (Option UserPayload)
  unfolding send
  get_user username = do
    c ← the_client
    req ← new_request "GET" (c.base_url <> ("/api/v2/users/" <> username)) none
    authorized ← set_auth req
    resp ← send authorized
    if nat_eq resp.status_code 404
        then pure none
        else if not (nat_eq resp.status_code 200)
        then raise (api_error resp.status_code)
        else do body ← lift resp.body; user ← lift (decode_payload body); pure (some user)

  unfoldable pub upsert_user : String → String → UserPayload → Exec (Session E) UserPayload
  unfolding send
  upsert_user method path_suffix payload = do
    c ← the_client
    let url =
        c.base_url <> ("/api/v2/users" <> (if path_suffix == "" then "" else "/" <> path_suffix))
    req ← new_request method url (some (encode_payload payload))
    authorized ← set_auth req
    resp ← send (set_header "Content-Type" "application/json" authorized)
    let refused = not (nat_eq resp.status_code 200) && not (nat_eq resp.status_code 201)
    if refused
        then raise (api_error resp.status_code)
        else do body ← lift resp.body; user ← lift (decode_payload body); pure user

  unfoldable pub create_user : UserPayload → Exec (Session E) UserPayload
  unfolding upsert_user
  create_user payload = upsert_user "POST" "" payload

  unfoldable pub update_user : String → UserPayload → Exec (Session E) UserPayload
  unfolding upsert_user
  update_user username payload = upsert_user "PUT" username payload

  unfoldable pub delete_user : String → Exec (Session E) Unit
  unfolding send
  delete_user username = do
    c ← the_client
    req ← new_request "DELETE" (c.base_url <> ("/api/v2/users/" <> username)) none
    authorized ← set_auth req
    resp ← send authorized
    if not (nat_eq resp.status_code 200) then raise (api_error resp.status_code) else pure tt
