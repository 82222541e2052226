-- ===== src/Tests/Client.antt =====
-- The client against the small SFTPGo.
use sftpgo_operator.Base.{
  String, ◌<>◌, ◌≡◌, ◌≢◌, refl, none, some, [], ◌∷◌, pos, ok, err, arith, eq_iff, ◌+◌, ◌*◌, ◌≤◌,
  ◌<◌, ℕ, true, ◌↔◌,
}
use sftpgo_operator.Base.Decimal.{value, are_digits}
use sftpgo_operator.Kube.Env.{Env}
use sftpgo_operator.Sftpgo.Payload.{UserPayload, user_from_cr, encode_payload}
use sftpgo_operator.Sftpgo.Payload.Laws.{
  payload_of, user_from_cr-eq-payload_of, user_from_cr-ignores, upload_bandwidth_bounds,
}
use sftpgo_operator.Sftpgo.Decode.{decode_token, decode_payload}
use sftpgo_operator.Sftpgo.Payload.Reading.{IsSendable}
use sftpgo_operator.Sftpgo.Payload.Sent.{FitsSpec, decode_payload-user_from_cr}
use sftpgo_operator.Sftpgo.Payload.RoundTrip.{decode_payload-encode_payload}
use sftpgo_operator.Sftpgo.Client.{
  Session, minutes, set_header, get_token, get_user, create_user, update_user, delete_user,
  service_url,
}
use sftpgo_operator.Sftpgo.Client.Url.{host_part, service_url-port}
use sftpgo_operator.Sftpgo.Client.Token.{
  AsksForToken, get_token-AsksForToken, get_token_reuse, get_token_ok, after,
}
use sftpgo_operator.Sftpgo.Client.Requests.{
  Exchange, plain, user_url, unchanged, found, stored, deleted, get_user-Exchange,
  create_user-Exchange, update_user-Exchange, delete_user-Exchange,
}
use sftpgo_operator.Tests.World.{sample_kinds, missing}
use sftpgo_operator.Tests.Samples.{
  sample_spec, sample_env, known, sample_client, session, logged_in,
}

get_user-Exchange_example :
    Exchange
      (plain "GET" (user_url sample_client "alice") none)
      unchanged
      found
      session
      (get_user sample_env "alice" session)
get_user-Exchange_example = get_user-Exchange sample_env "alice" session

create_user-Exchange_example :
    Exchange
      (plain "POST" (sample_client.base_url <> "/api/v2/users") (some (encode_payload known)))
      (set_header "Content-Type" "application/json")
      stored
      session
      (create_user sample_env known session)
create_user-Exchange_example = create_user-Exchange sample_env known session

alice_named : ◌≢◌ {A = String} "alice" ""
alice_named = ground (arith, eq_iff "alice" "")

update_user-Exchange_example :
    Exchange
      (plain "PUT" (user_url sample_client "alice") (some (encode_payload known)))
      (set_header "Content-Type" "application/json")
      stored
      session
      (update_user sample_env "alice" known session)
update_user-Exchange_example = update_user-Exchange sample_env "alice" known session alice_named

delete_user-Exchange_example :
    Exchange
      (plain "DELETE" (user_url sample_client "alice") none)
      unchanged
      deleted
      session
      (delete_user sample_env "alice" session)
delete_user-Exchange_example = delete_user-Exchange sample_env "alice" session

get_token-AsksForToken_example :
    AsksForToken sample_client session.run.trace (get_token sample_env session).1.run.trace
get_token-AsksForToken_example = get_token-AsksForToken sample_env session

get_token-logged_in : (get_token sample_env logged_in).0 ≡ ok "t0"
unfolding get_token
get_token-logged_in = refl

get_token_reuse_example : ((after sample_env logged_in).run.trace ≡ logged_in.run.trace) ↔ (
    (logged_in.client.token ≡ "t0")
    × (◌≢◌ {A = String} "t0" "")
    × ((sample_env.now logged_in.run.world).0 + minutes 2 < logged_in.client.token_exp))
get_token_reuse_example = get_token_reuse sample_env logged_in get_token-logged_in

get_token-session : (get_token sample_env session).0 ≡ ok "t1"
unfolding get_token decode_token
get_token-session = refl

get_token_ok_example : (◌≢◌ {A = String} "t1" "") × ((after sample_env session).client.token ≡ "t1")
get_token_ok_example = get_token_ok sample_env session get_token-session

-- An environment in which no request can be sent.
abbrev offline : Env sample_kinds
offline = record sample_env { send = λ req w. (err missing, w) }

abbrev cut_off : Session offline
cut_off = record { client = sample_client; run = record { world = session.run.world; trace = [] } }

get_token-cut_off : (get_token offline cut_off).0 ≡ err missing
unfolding get_token
get_token-cut_off = refl

user_from_cr-eq-payload_of_example :
    user_from_cr sample_spec "pw" [] ≡ payload_of sample_spec "pw" []
user_from_cr-eq-payload_of_example = user_from_cr-eq-payload_of sample_spec "pw" []

user_from_cr-ignores_example :
    user_from_cr
      (record sample_spec {
        rate_limits = none;
        max_concurrent_transfers = pos 3;
        protocols = "SSH" ∷ [];
      })
      "pw"
      []
    ≡ user_from_cr sample_spec "pw" []
user_from_cr-ignores_example =
    user_from_cr-ignores sample_spec "pw" [] none (pos 3) ("SSH" ∷ []) sample_spec.filters none

upload_bandwidth_bounds_example :
    (k : ℕ) × ((user_from_cr sample_spec "pw" []).upload_bandwidth ≡ pos k)
    × (k * 1024 ≤ 500)
    × (500 < k * 1024 + 1024)
upload_bandwidth_bounds_example = upload_bandwidth_bounds sample_spec "pw" [] 500 (pos 2048) refl

-- What `UserFromCR` makes of the sample user.
abbrev alice : UserPayload
alice = payload_of sample_spec "pw" []

alice-IsSendable : IsSendable alice
alice-IsSendable = record {
  id = refl;
  status = refl;
  folders = tt;
  path = "/";
  allowed = "list" ∷ "download" ∷ [];
  permissions = refl;
  quota_size = refl;
  quota_files = refl;
  upload_bandwidth = refl;
  download_bandwidth = refl;
  max_sessions = refl;
  groups = (refl, tt);
}

decode_payload-encode_payload_example : decode_payload (encode_payload alice) ≡ ok alice
decode_payload-encode_payload_example = decode_payload-encode_payload alice alice-IsSendable

sample_spec-FitsSpec : FitsSpec sample_spec
sample_spec-FitsSpec = record {
  folders = tt;
  quota = (refl, refl);
  limits = (refl, refl);
  max_sessions = refl;
}

decode_payload-user_from_cr_example :
    decode_payload (encode_payload (user_from_cr sample_spec "pw" []))
    ≡ ok (user_from_cr sample_spec "pw" [])
decode_payload-user_from_cr_example =
    decode_payload-user_from_cr sample_spec "pw" [] sample_spec-FitsSpec

service_url-port_example :
    (digits : String) × (service_url "main" "files" (pos 8080) ≡ host_part "main" "files" <> digits)
    × (are_digits digits ≡ true)
    × (value 0 digits ≡ 8080)
service_url-port_example = service_url-port "main" "files" 8080
