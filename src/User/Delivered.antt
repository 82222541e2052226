-- ===== src/User/Delivered.antt =====
-- What SFTPGo holds of a user after a reconcile.
use sftpgo_operator.Base.{
  String, ◌<>◌, not, ◌&&◌, false, ◌≡◌, ◌≢◌, refl, ap, subst, ◌∙◌, ◌⊎◌, Option, none, some, List, [],
  ℤ, Result, ok, err, inl, inr, arith, eq_iff, ◌==◌, nonempty, Result-cases, err-ne-ok,
  continue-pure,
}
use sftpgo_operator.Api.Meta.{Kinds}
use sftpgo_operator.Api.UserTypes.{SftpGoUser}
use sftpgo_operator.Kube.Env.{Env}
use sftpgo_operator.Kube.Calls.{Run, Outcome, done}
use sftpgo_operator.Sftpgo.Payload.{UserPayload, user_from_cr, encode_payload}
use sftpgo_operator.Sftpgo.Payload.Laws.{user_from_cr-eq-payload_of}
use sftpgo_operator.Sftpgo.Client.{Session, get_user, create_user, update_user}
use sftpgo_operator.Sftpgo.Client.Requests.{user_url, get_user_keeps}
use sftpgo_operator.Sftpgo.Client.Service.{IsService, create_user-user_at, update_user-user_at}
use sftpgo_operator.User.Reconcile.{report, finish, conclude, upsert, sync}
use sftpgo_operator.User.Runs.{cleared_payload}

module _ {K : Kinds} (E : Env K) (service : IsService E) (user : SftpGoUser K) (password : String)
    (keys : List String) where
  abbrev payload : UserPayload
  payload = user_from_cr user.spec password keys

  -- SFTPGo holds the payload of the custom resource, under some id.
  abbrev pub Delivered : Session E → Session E → Type 0
  Delivered s after =
      (n : ℤ) × (service.user_at after.run.world (user_url s.client user.spec.username)
        ≡ some (encode_payload (record payload { id = n })))

  finish_user_at :
      (existing : Option UserPayload) (s : Run E)
      → service.user_at (finish E user existing s).1.world ≡ service.user_at s.world
  unfolding finish
  finish_user_at existing s =
      ap {A = Run E} (λ x. service.user_at x.world) (continue-pure _ done _)
      ∙ service.update_user_status_user_at _ _
      ∙ service.set_status_condition_user_at _ _ _
      ∙ service.now_user_at _

  -- The end of a run that has no error.
  conclude_user_at :
      (existing : Option UserPayload) (r : Result UserPayload) (s : Run E) (o : Outcome)
      → (conclude E user existing r s).0 ≡ ok o
      → (q : UserPayload) × (r ≡ ok q)
        × (service.user_at (conclude E user existing r s).1.world ≡ service.user_at s.world)
  unfolding conclude report
  conclude_user_at existing (ok q) s o h = (q, refl, finish_user_at existing s)
  conclude_user_at existing (err e) s o h = absurd (err-ne-ok e o h)

  credentials_given :
      (password ≢ "") ⊎ (keys ≢ []) → (password == "" && not (nonempty keys)) ≡ false
  credentials_given given = ground (arith, eq_iff password "")

  payload_username : payload.username ≡ user.spec.username
  payload_username = rw (user_from_cr-eq-payload_of user.spec password keys) refl

  upsert-Delivered :
      (existing : Option UserPayload) (s : Session E) (o : Outcome)
      → user.spec.username ≢ ""
      → (password ≢ "") ⊎ (keys ≢ [])
      → (upsert E user password keys existing s).0 ≡ ok o
      → Delivered s (upsert E user password keys existing s).1
  unfolding upsert
  upsert-Delivered none s o named given h =
      let e = credentials_given given in
      let out = create_user E payload s in
      let (q, k, kept) = conclude_user_at none out.0 out.1.run o (rw e at h) in
      let url = user_url s.client user.spec.username in
      let created : service.user_at out.1.run.world url ≡ some (encode_payload payload) =
        subst
          (λ name.
            service.user_at out.1.run.world (user_url s.client name)
            ≡ some (encode_payload payload))
          payload_username (create_user-user_at E service payload q s k) in
      (payload.id, rw e (ap (λ f. f url) kept ∙ created))
  upsert-Delivered (some p) s o named given h =
      let wanted : UserPayload = record payload { id = p.id } in
      let e = cleared_payload user.spec password keys p.id in
      let out = update_user E user.spec.username wanted s in
      let (q, k, kept) = conclude_user_at (some p) out.0 out.1.run o (rw e at h) in
      (
        p.id,
        rw e (
            ap (λ f. f (user_url s.client user.spec.username)) kept
            ∙ update_user-user_at E service user.spec.username wanted q s named k),
      )

  -- Where SFTPGo takes a user as documented: if the user has a name, and a password or a key, an
  -- exchange that ends without an error leaves in SFTPGo the payload of the custom resource, under
  -- some id.
  pub sync-Delivered :
      (s : Session E) (o : Outcome)
      → user.spec.username ≢ ""
      → (password ≢ "") ⊎ (keys ≢ [])
      → (sync E user password keys s).0 ≡ ok o
      → (n : ℤ) × (service.user_at
            (sync E user password keys s).1.run.world
            (user_url s.client user.spec.username)
          ≡ some (encode_payload (record (user_from_cr user.spec password keys) { id = n })))
  unfolding sync report
  sync-Delivered s o named given h = elim (Result-cases (get_user E user.spec.username s).0) [
    | inr (e, k) ↦ absurd (err-ne-ok e o (rw k at h))
    | inl (existing, k) ↦
        let s' = (get_user E user.spec.username s).1 in
        let (base, name, secret) = get_user_keeps E user.spec.username s in
        let (n, holds) = upsert-Delivered existing s' o named given (rw k at h) in
        (
          n,
          rw k (
              subst
                (λ b.
                  service.user_at (upsert E user password keys existing s').1.run.world
                    (b <> ("/api/v2/users/" <> user.spec.username))
                  ≡ some (encode_payload (record payload { id = n })))
                base holds),
        )
  ]
