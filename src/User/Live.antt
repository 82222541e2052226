-- ===== src/User/Live.antt =====
-- How a reconcile of a live user ends, from the fetch of its server on.
use sftpgo_operator.Base.{
  String, ◌≡◌, ◌≢◌, refl, ◌⊎◌, true, false, ◌||◌, List, ◌∷◌, Error, Result, ok, err, ◌>>=◌, arith,
  eq_iff, ◌==◌, Bool-cases, Result-cases, inl, inr,
}
use sftpgo_operator.Api.Meta.{Kinds}
use sftpgo_operator.Api.ServerTypes.{SftpGoServer}
use sftpgo_operator.Api.UserTypes.{SftpGoUser}
use sftpgo_operator.Kube.Env.{Env}
use sftpgo_operator.Kube.Calls.{Run, Event, got_server, put_user_status, Outcome, done}
use sftpgo_operator.User.Reconcile.{
  server_key, credentials_from, get_admin_credentials, resolve_password, resolve_public_keys,
  with_client, sync, report, reconcile_on_server, reconcile_live,
}
use sftpgo_operator.User.Runs.{Shows, Synchronized, sync-Synchronized}
use sftpgo_operator.User.Deletion.{Credentials, api_client, credentials_from-Credentials_at}
use sftpgo_operator.User.Secrets.{
  PasswordFrom, KeysFrom, resolve_password-PasswordFrom, resolve_public_keys-KeysFrom,
}

module _ {K : Kinds} (E : Env K) (user : SftpGoUser K) where
  -- The credentials of the user's server were looked up, once the server was found.
  abbrev pub LookedUp :
      List (Event K) → SftpGoServer K → Result (String × String) → List (Event K) → Type 0
  LookedUp old server r t =
      Credentials E server (got_server (server_key user) (ok server) ∷ old)
        server.spec.admin_secret_ref r t

  -- The ways for a run to end, with its result.
  pub data Lived (old : List (Event K)) : Result Outcome → List (Event K) → Type 0 where
    -- no such server: reported, and no error, so there is no retry
    server_missing :
        {m : SftpGoUser K} {reply : Result (Unit {0})} {e : Error}
        → e.is_not_found ≡ true
        → Shows user "Error" m
        → Lived old (ok done) (put_user_status m reply ∷ got_server (server_key user) (err e) ∷ old)
    server_unread :
        {e : Error}
        → e.is_not_found ≡ false
        → Lived old (err e) (got_server (server_key user) (err e) ∷ old)
    credentials_unread :
        {server : SftpGoServer K} {m : SftpGoUser K} {reply : Result (Unit {0})} {e : Error}
        {t : List (Event K)}
        → LookedUp old server (err e) t
        → Shows user "Error" m
        → Lived old (err e) (put_user_status m reply ∷ t)
    unconfigured :
        {server : SftpGoServer K} {m : SftpGoUser K} {reply : Result (Unit {0})}
        {c : String × String} {t : List (Event K)}
        → LookedUp old server (ok c) t
        → (c.0 ≡ "") ⊎ (c.1 ≡ "")
        → Shows user "Pending" m
        → Lived old (ok done) (put_user_status m reply ∷ t)
    password_unread :
        {server : SftpGoServer K} {c : String × String} {e : Error} {t u : List (Event K)}
        → LookedUp old server (ok c) t
        → PasswordFrom user t (err e) u
        → Lived old (err e) u
    keys_unread :
        {server : SftpGoServer K} {c : String × String} {password : String} {e : Error}
        {t u v : List (Event K)}
        → LookedUp old server (ok c) t
        → PasswordFrom user t (ok password) u
        → KeysFrom user u (err e) v
        → Lived old (err e) v
    exchanged :
        {server : SftpGoServer K} {c : String × String} {password : String} {keys : List String}
        {t u v w : List (Event K)} {r : Result Outcome}
        → LookedUp old server (ok c) t
        → (c.0 ≢ "") × (c.1 ≢ "")
        → PasswordFrom user t (ok password) u
        → KeysFrom user u (ok keys) v
        → Synchronized E user password keys (api_client E user server c) v r w
        → Lived old r w

  module _ (named : user.spec.username ≢ "") (old : List (Event K)) (server : SftpGoServer K) where
    keys-Lived :
        {c : String × String} {password : String} {t : List (Event K)} (s : Run E)
        → LookedUp old server (ok c) t
        → (c.0 ≢ "") × (c.1 ≢ "")
        → PasswordFrom user t (ok password) s.trace
        → let m =
            (resolve_public_keys E user >>= λ keys.
            with_client E (api_client E user server c) (sync E user password keys)) in
          Lived old (m s).0 (m s).1.trace
    keys-Lived {c} {password} s got set from =
        let asked = resolve_public_keys-KeysFrom E user s in
        elim (Result-cases (resolve_public_keys E user s).0) [
          | inr (e, h) ↦ rw h (keys_unread got from (rw h at asked))
          | inl (keys, h) ↦ rw h (
              exchanged got set from (rw h at asked) (
                sync-Synchronized E user password keys
                  (record {
                    client = api_client E user server c;
                    run = (resolve_public_keys E user s).1;
                  })
                  named))
        ]

    secrets-Lived :
        {c : String × String} (s : Run E)
        → LookedUp old server (ok c) s.trace
        → (c.0 ≢ "") × (c.1 ≢ "")
        → let m =
            (resolve_password E user >>= λ password. resolve_public_keys E user >>= λ keys.
            with_client E (api_client E user server c) (sync E user password keys)) in
          Lived old (m s).0 (m s).1.trace
    secrets-Lived {c} s got set =
        let asked = resolve_password-PasswordFrom E user s in
        elim (Result-cases (resolve_password E user s).0) [
          | inr (e, h) ↦ rw h (password_unread got (rw h at asked))
          | inl (password, h) ↦ rw h (keys-Lived _ got set (rw h at asked))
        ]

    on_server-Lived :
        (s : Run E)
        → s.trace ≡ got_server (server_key user) (ok server) ∷ old
        → Lived old
            (reconcile_on_server E user server s).0
            (reconcile_on_server E user server s).1.trace
    unfolding reconcile_on_server get_admin_credentials report
    on_server-Lived s x =
        let got = credentials_from-Credentials_at E server server.spec.admin_secret_ref s x in
        elim (Result-cases (credentials_from E server server.spec.admin_secret_ref s).0) [
          | inr (e, h) ↦ rw h (credentials_unread (rw h at got) (refl, refl, refl))
          | inl (c, h) ↦ rw h (elim (Bool-cases (c.0 == "" || c.1 == "")) [
            | inl k ↦ rw k (
                unconfigured (rw h at got) (ground (arith, eq_iff c.0 "", eq_iff c.1 ""))
                  (refl, refl, refl))
            | inr k ↦
                rw k (secrets-Lived _ (rw h at got) (ground (arith, eq_iff c.0 "", eq_iff c.1 "")))
          ])
        ]

  -- For a user whose name is not empty, a run from the fetch of the server on ends in one of these
  -- ways, whatever the cluster and SFTPGo answer. SFTPGo is asked only after the server, both
  -- credentials, the password and the keys have been had, in this order. A server that is not found,
  -- credentials that are not set, and a new user with neither a password nor a key are reported
  -- in the status and end the run without an error; every other failure to read an object or to
  -- exchange with SFTPGo is the error of the run, whether the report of it can be written or not.
  pub reconcile_live-Lived :
      (s : Run E)
      → user.spec.username ≢ ""
      → Lived s.trace (reconcile_live E user s).0 (reconcile_live E user s).1.trace
  unfolding reconcile_live report
  reconcile_live-Lived s named = elim (Result-cases (E.get_server (server_key user) s.world).0) [
    | inl (server, h) ↦ rw h (on_server-Lived named s.trace server _ refl)
    | inr (e, h) ↦ rw h (elim (Bool-cases e.is_not_found) [
      | inl k ↦ simp k (server_missing k (refl, refl, refl))
      | inr k ↦ simp k (server_unread k)
    ])
  ]
