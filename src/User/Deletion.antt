-- ===== src/User/Deletion.antt =====
-- The finalizer of a user: when it is added, and what has happened when it is taken off.
use sftpgo_operator.Base.{
  String, true, false, ◌||◌, ◌≡◌, refl, subst, ◌⊎◌, inl, inr, Option, none, some, List, ◌∷◌, Error,
  Result, ok, err, pure, continue, arith, eq_iff, ◌==◌, Bool-cases, Result-cases,
}
use sftpgo_operator.Base.Text.{get_or_empty}
use sftpgo_operator.Api.Meta.{Kinds, NamespacedName, Secret, LocalObjectReference}
use sftpgo_operator.Api.ServerTypes.{SftpGoServer}
use sftpgo_operator.Api.UserTypes.{SftpGoUser}
use sftpgo_operator.Kube.Env.{Request, Response, Env}
use sftpgo_operator.Kube.Calls.{
  Run, Event, got_server, got_secret, put_user, sent, Outcome, done, is_deleting,
}
use sftpgo_operator.Sftpgo.Client.{Client, Session, delete_user}
use sftpgo_operator.Sftpgo.Client.Token.{AsksForToken}
use sftpgo_operator.Sftpgo.Client.Requests.{
  Signed, plain, user_url, Exchange, unchanged, deleted, delete_user-Exchange,
}
use sftpgo_operator.User.Reconcile.{
  user_finalizer, server_namespace, server_key, credentials_from, get_admin_credentials, client_for,
  delete_at, delete_user_from_sftpgo, reconcile_deleted, reconcile_user,
}

module _ {K : Kinds} (E : Env K) where
  abbrev secret_key : SftpGoServer K → LocalObjectReference → NamespacedName
  secret_key server ref = record { namespace = server.meta.namespace; name = ref.name }

  -- The ways for the credentials of a server to be found.
  pub data Credentials (server : SftpGoServer K) (old : List (Event K))
      : Option LocalObjectReference → Result (String × String) → List (Event K) → Type 0 where
    no_reference : Credentials server old none (ok ("", "")) old
    no_name :
        {ref : LocalObjectReference}
        → ref.name ≡ ""
        → Credentials server old (some ref) (ok ("", "")) old
    unreadable :
        {ref : LocalObjectReference} {e : Error}
        → Credentials server old
            (some ref)
            (err e)
            (got_secret (secret_key server ref) (err e) ∷ old)
    read :
        {ref : LocalObjectReference} {secret : Secret}
        → Credentials server old
            (some ref)
            (ok (get_or_empty secret.contents "username", get_or_empty secret.contents "password"))
            (got_secret (secret_key server ref) (ok secret) ∷ old)

  credentials_from-Credentials :
      (server : SftpGoServer K) (ref : Option LocalObjectReference) (s : Run E)
      → Credentials server s.trace ref
          (credentials_from E server ref s).0
          (credentials_from E server ref s).1.trace
  unfolding credentials_from
  credentials_from-Credentials server none s = no_reference
  credentials_from-Credentials server (some ref) s = elim (Bool-cases (ref.name == "")) [
    | inl e ↦ rw e (no_name ((eq_iff ref.name "").0 e))
    | inr e ↦ rw e (elim (Result-cases (E.get_secret (secret_key server ref) s.world).0) [
      | inl (secret, h) ↦ rw h read
      | inr (x, h) ↦ rw h unreadable
    ])
  ]

  -- The same, with the trace before the call under another name.
  pub credentials_from-Credentials_at :
      (server : SftpGoServer K) (ref : Option LocalObjectReference) (s : Run E)
      {old : List (Event K)}
      → s.trace ≡ old
      → Credentials server old ref
          (credentials_from E server ref s).0
          (credentials_from E server ref s).1.trace
  credentials_from-Credentials_at server ref s x =
      subst
        (λ tr.
          Credentials server tr ref (credentials_from E server ref s).0
            (credentials_from E server ref s).1.trace)
        x (credentials_from-Credentials server ref s)

  module _ (user : SftpGoUser K) where
    abbrev pub api_client : SftpGoServer K → String × String → Client
    api_client server (username, password) =
        client_for server (server_namespace user) username password

    -- The ways for the clean-up of a deleted user to end. It succeeds if the server is gone, if no
    -- credentials for it can be had, or if SFTPGo has answered the DELETE with 200.
    pub data CleanedUp (old : List (Event K)) : Result (Unit {0}) → List (Event K) → Type 0 where
      server_gone :
          {e : Error}
          → e.is_not_found ≡ true
          → CleanedUp old (ok tt) (got_server (server_key user) (err e) ∷ old)
      server_unread :
          {e : Error}
          → e.is_not_found ≡ false
          → CleanedUp old (err e) (got_server (server_key user) (err e) ∷ old)
      locked_out :
          {server : SftpGoServer K} {e : Error} {t : List (Event K)}
          → Credentials server
              (got_server (server_key user) (ok server) ∷ old)
              server.spec.admin_secret_ref
              (err e)
              t
          → CleanedUp old (ok tt) t
      no_credentials :
          {server : SftpGoServer K} {c : String × String} {t : List (Event K)}
          → Credentials server
              (got_server (server_key user) (ok server) ∷ old)
              server.spec.admin_secret_ref
              (ok c)
              t
          → (c.0 ≡ "") ⊎ (c.1 ≡ "")
          → CleanedUp old (ok tt) t
      unasked :
          {server : SftpGoServer K} {c : String × String} {e : Error} {t u : List (Event K)}
          → Credentials server
              (got_server (server_key user) (ok server) ∷ old)
              server.spec.admin_secret_ref
              (ok c)
              t
          → AsksForToken (api_client server c) t u
          → CleanedUp old (err e) u
      answered :
          {server : SftpGoServer K} {c : String × String} {t u : List (Event K)} {signed : Request}
          {answer : Result Response}
          → Credentials server
              (got_server (server_key user) (ok server) ∷ old)
              server.spec.admin_secret_ref
              (ok c)
              t
          → Signed
              (api_client server c)
              (plain "DELETE" (user_url (api_client server c) user.spec.username) none)
              signed
          → AsksForToken (api_client server c) t u
          → CleanedUp old (deleted answer) (sent signed answer ∷ u)

    delete_user-CleanedUp :
        {old t : List (Event K)} {server : SftpGoServer K} {c : String × String} (s : Run E)
        (out : Result (Unit {0}) × Session E)
        → Credentials server
            (got_server (server_key user) (ok server) ∷ old)
            server.spec.admin_secret_ref
            (ok c)
            t
        → s.trace ≡ t
        → Exchange
            (plain "DELETE" (user_url (api_client server c) user.spec.username) none)
            unchanged
            deleted
            (record { client = api_client server c; run = s })
            out
        → CleanedUp old out.0 out.1.run.trace
    delete_user-CleanedUp s out got x (inl (e, h, asks)) = rw h (unasked got (rw x at asks))
    delete_user-CleanedUp s out got x (inr (signed, answer, u, g, asks, hu, hr)) =
        rw (hr, hu) (answered got g (rw x at asks))

    delete_at-CleanedUp :
        (server : SftpGoServer K) (old : List (Event K)) (s : Run E)
        → s.trace ≡ got_server (server_key user) (ok server) ∷ old
        → CleanedUp old (delete_at E user server s).0 (delete_at E user server s).1.trace
    unfolding delete_at get_admin_credentials
    delete_at-CleanedUp server old s x =
        let s' = (credentials_from E server server.spec.admin_secret_ref s).1 in
        let got = credentials_from-Credentials_at server server.spec.admin_secret_ref s x in
        elim (Result-cases (credentials_from E server server.spec.admin_secret_ref s).0) [
          | inr (e, h) ↦ rw h (locked_out (rw h at got))
          | inl (c, h) ↦ rw h (elim (Bool-cases (c.0 == "" || c.1 == "")) [
            | inl k ↦
                rw k (no_credentials (rw h at got) (ground (arith, eq_iff c.0 "", eq_iff c.1 "")))
            | inr k ↦ rw k (
                let session : Session E = record { client = api_client server c; run = s' } in
                delete_user-CleanedUp s' (delete_user E user.spec.username session) (rw h at got)
                  refl (delete_user-Exchange E user.spec.username session))
          ])
        ]

    delete_user_from_sftpgo-CleanedUp :
        (s : Run E)
        → CleanedUp s.trace
            (delete_user_from_sftpgo E user s).0
            (delete_user_from_sftpgo E user s).1.trace
    unfolding delete_user_from_sftpgo
    delete_user_from_sftpgo-CleanedUp s =
        elim (Result-cases (E.get_server (server_key user) s.world).0) [
          | inl (server, h) ↦ rw h (delete_at-CleanedUp server s.trace _ refl)
          | inr (e, h) ↦ rw h (elim (Bool-cases e.is_not_found) [
            | inl k ↦ simp k (server_gone k)
            | inr k ↦ simp k (server_unread k)
          ])
        ]

    -- How the reconcile of a deleted user ends: the finalizer is taken off only after the clean-up
    -- has succeeded, and an error of the clean-up is the result, with nothing done after it.
    pub data Released (old : List (Event K)) : Result Outcome → List (Event K) → Type 0 where
      released :
          {t : List (Event K)} {reply : Result (Unit {0})} {r : Result Outcome}
          → CleanedUp old (ok tt) t
          → ((reply ≡ ok tt) × (r ≡ ok done)) ⊎ ((e : Error) × (reply ≡ err e) × (r ≡ err e))
          → Released old r (
              put_user (record user { meta = E.remove_finalizer user.meta user_finalizer }) reply
              ∷ t)
      held : {t : List (Event K)} {e : Error} → CleanedUp old (err e) t → Released old (err e) t

    continue-Released :
        {old t : List (Event K)} (reply : Result (Unit {0})) (s : Run E)
        → CleanedUp old (ok tt) t
        → s.trace
          ≡ put_user (record user { meta = E.remove_finalizer user.meta user_finalizer }) reply ∷ t
        → Released old
            (continue reply (λ _. pure done) s).0
            (continue reply (λ _. pure done) s).1.trace
    continue-Released (ok tt) s x h = rw h (released x (inl (refl, refl)))
    continue-Released (err e) s x h = rw h (released x (inr (e, refl, refl)))

    pub reconcile_deleted-Released :
        (s : Run E)
        → Released s.trace (reconcile_deleted E user s).0 (reconcile_deleted E user s).1.trace
    unfolding reconcile_deleted
    reconcile_deleted-Released s = elim (Result-cases (delete_user_from_sftpgo E user s).0) [
      | inr (e, h) ↦ rw h (held (rw h at (delete_user_from_sftpgo-CleanedUp s)))
      | inl (tt, h) ↦
          rw h (continue-Released _ _ (rw h at (delete_user_from_sftpgo-CleanedUp s)) refl)
    ]

    -- A reconcile of a user that carries the finalizer and is being deleted takes the finalizer off
    -- only after the clean-up has succeeded: the server is gone, no credentials for it can be had,
    -- or SFTPGo has answered the DELETE of the user with 200. Any other end of the clean-up is the
    -- error of the run, and the user object is not written.
    pub reconcile_user-Released :
        (s : Run E)
        → E.contains_finalizer user.meta user_finalizer ≡ true
        → is_deleting user.meta ≡ true
        → Released s.trace (reconcile_user E user s).0 (reconcile_user E user s).1.trace
    unfolding reconcile_user
    reconcile_user-Released s h d = rw (h, d) (reconcile_deleted-Released s)
