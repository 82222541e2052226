-- ===== src/User/Reconcile.antt =====
-- `SftpGoUserReconciler`. `Reconcile` is cut at its early returns into functions that call one
-- another in the order of the source.
use sftpgo_operator.Base.{
  String, ◌<>◌, true, not, ◌&&◌, ◌||◌, Option, none, some, List, [], ℤ, pos, is_positive, nonempty,
  Result, ok, err, Exec, pure, raise, attempt, ◌>>=◌, ◌>>◌, ◌==◌, if◌then◌else◌,
}
use sftpgo_operator.Base.Text.{get_or_empty}
use sftpgo_operator.Api.Meta.{
  Kinds, NamespacedName, condition_true, condition_false, Condition, Secret, LocalObjectReference,
}
use sftpgo_operator.Api.ServerTypes.{SftpGoServer}
use sftpgo_operator.Api.UserTypes.{SftpGoUser}
use sftpgo_operator.Kube.Env.{Env}
use sftpgo_operator.Kube.Calls.{
  Run, got_server, got_user, got_secret, put_user, put_user_status, Outcome, done, is_deleting,
  condition, call, ask,
}
use sftpgo_operator.Sftpgo.Payload.{UserPayload, user_from_cr}
use sftpgo_operator.Sftpgo.Client.{
  Client, Session, new_client, service_url, get_user, create_user, update_user, delete_user,
}
use sftpgo_operator.User.Keys.{parse_keys}

abbrev pub user_finalizer : String
user_finalizer = "sftpgo.sftpgo.io/user-finalizer"

-- `ns := user.Spec.ServerRef.Namespace`, or the user's own.
unfoldable pub server_namespace : {K : Kinds} → SftpGoUser K → String
server_namespace user =
    let ns = user.spec.server_ref.namespace in if ns == "" then user.meta.namespace else ns

unfoldable pub server_key : {K : Kinds} → SftpGoUser K → NamespacedName
unfolding server_namespace
server_key user = record { namespace = server_namespace user; name = user.spec.server_ref.name }

-- The port of the base URL.
unfoldable pub api_port : {K : Kinds} → SftpGoServer K → ℤ
api_port server = if is_positive server.spec.web_port then server.spec.web_port else pos 8080

-- The client for the API of a server.
unfoldable pub client_for : {K : Kinds} → SftpGoServer K → String → String → String → Client
unfolding new_client service_url api_port
client_for server ns username password =
    new_client (service_url server.meta.name ns (api_port server)) username password

module _ {K : Kinds} (E : Env K) where
  abbrev pub read_user : NamespacedName → Exec (Run E) (SftpGoUser K)
  read_user key = call E (E.get_user key) (got_user key)

  abbrev pub read_server : NamespacedName → Exec (Run E) (SftpGoServer K)
  read_server key = call E (E.get_server key) (got_server key)

  abbrev pub read_secret : NamespacedName → Exec (Run E) Secret
  read_secret key = call E (E.get_secret key) (got_secret key)

  abbrev pub write_user : SftpGoUser K → Exec (Run E) Unit
  write_user user = call E (E.update_user user) (put_user user)

  abbrev pub write_user_status : SftpGoUser K → Exec (Run E) Unit
  write_user_status user = call E (E.update_user_status user) (put_user_status user)

  -- `meta.SetStatusCondition(&user.Status.Conditions, c)` and `user.Status.Phase = phase`
  abbrev pub with_condition : SftpGoUser K → Condition → String → Exec (Run E) (SftpGoUser K)
  with_condition user c phase = do
    cs ← ask E (E.set_status_condition user.status.conditions c)
    pure (record user { status = record user.status { conditions = cs; phase = phase } })

  -- A status that is reported on the way out: the update's own error is dropped.
  unfoldable pub report : SftpGoUser K → Condition → String → Exec (Run E) Unit
  report user c phase = do
    marked ← with_condition user c phase
    attempt (write_user_status marked)
    pure tt

  -- `getAdminCredentials`, with `server.Spec.AdminSecretRef`.
  unfoldable pub credentials_from :
      SftpGoServer K → Option LocalObjectReference → Exec (Run E) (String × String)
  unfolding get_or_empty
  credentials_from server none = pure ("", "")
  credentials_from server (some ref) = if ref.name == "" then pure ("", "") else do
    secret ← read_secret (record { name = ref.name; namespace = server.meta.namespace })
    pure (get_or_empty secret.contents "username", get_or_empty secret.contents "password")

  unfoldable pub get_admin_credentials : SftpGoServer K → Exec (Run E) (String × String)
  get_admin_credentials server = credentials_from server server.spec.admin_secret_ref

  unfoldable pub resolve_password : SftpGoUser K → Exec (Run E) String
  unfolding get_or_empty
  resolve_password user =
      if not (user.spec.password == "")
      then pure user.spec.password
      else elim user.spec.password_secret_ref [
        | none ↦ pure ""
        | some ref ↦ do
          secret ← read_secret (record { name = ref.name; namespace = user.meta.namespace })
          pure (get_or_empty secret.contents ref.key)
      ]

  unfoldable pub resolve_public_keys : SftpGoUser K → Exec (Run E) (List String)
  unfolding get_or_empty parse_keys
  resolve_public_keys user =
      if nonempty user.spec.public_keys
      then pure user.spec.public_keys
      else elim user.spec.public_keys_secret_ref [
        | none ↦ pure []
        | some ref ↦ do
          secret ← read_secret (record { name = ref.name; namespace = user.meta.namespace })
          pure (parse_keys (get_or_empty secret.contents ref.key))
      ]

  abbrev pub with_client : {A : Type 0} → Client → Exec (Session E) A → Exec (Run E) A
  with_client c m run = let (r, s) = m (record { client = c; run = run }) in (r, s.run)

  abbrev pub in_run : {A : Type 0} → Exec (Run E) A → Exec (Session E) A
  in_run m s = let (r, run) = m s.run in (r, record { client = s.client; run = run })

  -- The part of `deleteUserFromSFTPGO` below the fetch of the server.
  unfoldable pub delete_at : SftpGoUser K → SftpGoServer K → Exec (Run E) Unit
  delete_at user server = do
    credentials ← attempt (get_admin_credentials server)
    elim credentials [
      | err e ↦ pure tt
      | ok (username, password) ↦
          if username == "" || password == ""
          then pure tt
          else with_client (client_for server (server_namespace user) username password)
              (delete_user E user.spec.username)
    ]

  unfoldable pub delete_user_from_sftpgo : SftpGoUser K → Exec (Run E) Unit
  delete_user_from_sftpgo user = do
    found ← attempt (read_server (server_key user))
    elim found [
      | err e ↦ if e.is_not_found then pure tt else raise e
      | ok server ↦ delete_at user server
    ]

  -- From `now := metav1.Now()` on.
  unfoldable pub finish : SftpGoUser K → Option UserPayload → Exec (Run E) Outcome
  finish user existing = do
    now ← ask E E.now
    marked ← with_condition user (condition "Ready" condition_true "Synced" "") "Synced"
    let synced : SftpGoUser K = record marked {
      status = record marked.status { last_synced = some now };
    }
    let final : SftpGoUser K = elim existing [
      | none ↦ synced
      | some found ↦ record synced { status = record synced.status { user_id = found.id } }
    ]
    write_user_status final
    pure done

  -- What follows the call that creates or updates the user.
  unfoldable pub conclude :
      SftpGoUser K → Option UserPayload → Result UserPayload → Exec (Run E) Outcome
  conclude user existing (ok reply) = finish user existing
  conclude user existing (err e) = do
    report user (condition "Ready" condition_false "APIError" e.message) "Error"
    raise e

  unfoldable pub upsert :
      SftpGoUser K → String → List String → Option UserPayload → Exec (Session E) Outcome
  upsert user password public_keys (some found) = do
    let payload : UserPayload = record (user_from_cr user.spec password public_keys) {
      id = found.id;
    }
    let kept : UserPayload = if password == "" then record payload { password = "" } else payload
    replied ← attempt (update_user E user.spec.username kept)
    in_run (conclude user (some found) replied)
  upsert user password public_keys none =
      if password == "" && not (nonempty public_keys)
      then in_run (do
        report user
            (condition "Ready" condition_false "ValidationError"
              "New user requires either password or publicKeys")
            "Error"
        pure done)
      else (do
        replied ← attempt (create_user E (user_from_cr user.spec password public_keys))
        in_run (conclude user none replied))

  -- From `existing, err := client.GetUser(...)` on.
  unfoldable pub sync : SftpGoUser K → String → List String → Exec (Session E) Outcome
  sync user password public_keys = do
    looked_up ← attempt (get_user E user.spec.username)
    elim looked_up [
      | err e ↦
          in_run (do
            report user (condition "Ready" condition_false "APIError" e.message) "Error"
            raise e)
      | ok existing ↦ upsert user password public_keys existing
    ]

  -- From `r.getAdminCredentials(ctx, server)` on.
  unfoldable pub reconcile_on_server : SftpGoUser K → SftpGoServer K → Exec (Run E) Outcome
  reconcile_on_server user server = do
    credentials ← attempt (get_admin_credentials server)
    elim credentials [
      | err e ↦ do
        report user (condition "Ready" condition_false "AuthError" e.message) "Error"
        raise e
      | ok (username, password) ↦
          if username == "" || password == ""
          then (do
            report user
                (condition "Ready" condition_false "AuthNotConfigured"
                  "SftpGoServer AdminSecretRef not configured - cannot manage users via API")
                "Pending"
            pure done)
          else (do
            user_password ← resolve_password user
            public_keys ← resolve_public_keys user
            with_client (client_for server (server_namespace user) username password)
                (sync user user_password public_keys))
    ]

  -- From the fetch of the SftpGoServer on.
  unfoldable pub reconcile_live : SftpGoUser K → Exec (Run E) Outcome
  reconcile_live user = do
    found ← attempt (read_server (server_key user))
    elim found [
      | err e ↦
          if e.is_not_found
          then (do
            report user
                (condition "Ready" condition_false "ServerNotFound" (
                  "SftpGoServer "
                  <> (user.spec.server_ref.name
                      <> (" not found in namespace " <> server_namespace user))))
                "Error"
            pure done)
          else raise e
      | ok server ↦ reconcile_on_server user server
    ]

  unfoldable pub reconcile_deleted : SftpGoUser K → Exec (Run E) Outcome
  reconcile_deleted user = do
    delete_user_from_sftpgo user
    write_user (record user { meta = E.remove_finalizer user.meta user_finalizer })
    pure done

  unfoldable pub reconcile_user : SftpGoUser K → Exec (Run E) Outcome
  reconcile_user user =
      if not (E.contains_finalizer user.meta user_finalizer)
      then (do
        write_user (record user { meta = E.add_finalizer user.meta user_finalizer })
        pure (record { requeue = true }))
      else if is_deleting user.meta
      then reconcile_deleted user
      else reconcile_live user

  unfoldable pub reconcile : NamespacedName → Exec (Run E) Outcome
  reconcile req = do
    got ← attempt (read_user req)
    elim got [
      | err e ↦ if e.is_not_found then pure done else raise e
      | ok user ↦ reconcile_user user
    ]
