-- ===== src/User/Writes.antt =====
-- When a reconcile changes a user in SFTPGo, and when it does not.
use sftpgo_operator.Base.{
  String, ◌≡◌, refl, ◌∙◌, ap, ◌⊎◌, inl, inr, true, false, ◌||◌, Option, none, List, [], ◌∷◌, Result,
  ◌==◌, if◌then◌else◌, Bool-cases, Result-cases,
}
use sftpgo_operator.Api.Meta.{Kinds, LocalObjectReference}
use sftpgo_operator.Api.ServerTypes.{SftpGoServer}
use sftpgo_operator.Api.UserTypes.{SftpGoUser}
use sftpgo_operator.Kube.Env.{Request, Env}
use sftpgo_operator.Kube.Calls.{Run, Event, sent, Outcome, is_deleting}
use sftpgo_operator.Sftpgo.Client.{Client}
use sftpgo_operator.Sftpgo.Client.Token.{AsksForToken}
use sftpgo_operator.Sftpgo.Client.Requests.{Signed, plain, user_url}
use sftpgo_operator.User.Reconcile.{user_finalizer, reconcile_user, reconcile_deleted}
use sftpgo_operator.User.Deletion.{
  Credentials, api_client, CleanedUp, server_gone, no_reference, no_name, unreadable, read,
  server_unread, locked_out, no_credentials, unasked, answered, Released, released, held,
  reconcile_deleted-Released,
}

module _ {K : Kinds} where
  -- The requests of a trace that create or update a user.
  abbrev pub writes : List (Event K) → List Request
  writes [] = []
  writes (sent req answer ∷ t) =
      if req.method == "POST" || req.method == "PUT" then req ∷ writes t else writes t
  writes (_ ∷ t) = writes t

  AsksForToken-writes :
      (c : Client) (old new : List (Event K)) → AsksForToken c old new → writes new ≡ writes old
  AsksForToken-writes c old new (inl h) = ap writes h
  AsksForToken-writes c old new (inr (reply, h)) = ap writes h

Signed-method :
    (c : Client) (req signed : Request) → Signed c req signed → signed.method ≡ req.method
Signed-method c req signed (inl (h, k)) = ap (λ (r : Request). r.method) k
Signed-method c req signed (inr (t, h, k)) = ap (λ (r : Request). r.method) k

module _ {K : Kinds} (E : Env K) where
  Credentials-writes :
      {server : SftpGoServer K} {old t : List (Event K)} {ref : Option LocalObjectReference}
      {r : Result (String × String)}
      → Credentials E server old ref r t
      → writes t ≡ writes old
  Credentials-writes no_reference = refl
  Credentials-writes (no_name h) = refl
  Credentials-writes unreadable = refl
  Credentials-writes read = refl

  module _ (user : SftpGoUser K) where
    CleanedUp-writes :
        {old t : List (Event K)} {r : Result (Unit {0})}
        → CleanedUp E user old r t
        → writes t ≡ writes old
    CleanedUp-writes (server_gone h) = refl
    CleanedUp-writes (server_unread h) = refl
    CleanedUp-writes (locked_out c) = Credentials-writes c
    CleanedUp-writes (no_credentials c h) = Credentials-writes c
    CleanedUp-writes (unasked {server = sv} {c = c} got asks) =
        AsksForToken-writes (api_client E user sv c) _ _ asks ∙ Credentials-writes got
    CleanedUp-writes (answered {server = sv} {c = c} {signed = sg} got g asks) =
        rw
          (Signed-method (api_client E user sv c)
            (plain "DELETE" (user_url (api_client E user sv c) user.spec.username) none) sg g)
          (AsksForToken-writes (api_client E user sv c) _ _ asks ∙ Credentials-writes got)

    Released-writes :
        {old t : List (Event K)} {r : Result Outcome}
        → Released E user old r t
        → writes t ≡ writes old
    Released-writes (released c h) = CleanedUp-writes c
    Released-writes (held c) = CleanedUp-writes c

    reconcile_user_deleting :
        (s : Run E)
        → E.contains_finalizer user.meta user_finalizer ≡ true
        → is_deleting user.meta ≡ true
        → reconcile_user E user s ≡ reconcile_deleted E user s
    unfolding reconcile_user
    reconcile_user_deleting s k d = rw (k, d) refl

    untouched :
        (s : Run E)
        → E.contains_finalizer user.meta user_finalizer ≡ false
        → writes (reconcile_user E user s).1.trace ≡ writes s.trace
    unfolding reconcile_user
    untouched s k =
        let marked : SftpGoUser K = record user {
          meta = E.add_finalizer user.meta user_finalizer;
        } in
        rw k (elim (Result-cases (E.update_user marked s.world).0) [
          | inl (x, h) ↦ rw h refl
          | inr (x, h) ↦ rw h refl
        ])

    -- A reconcile sends no POST and no PUT if the custom resource lacks the finalizer, by which its
    -- deletion would be noticed, or if it is being deleted.
    pub reconcile_user-writes :
        (s : Run E)
        → (E.contains_finalizer user.meta user_finalizer ≡ false) ⊎ (is_deleting user.meta ≡ true)
        → writes (reconcile_user E user s).1.trace ≡ writes s.trace
    reconcile_user-writes s (inl k) = untouched s k
    reconcile_user-writes s (inr d) =
        elim (Bool-cases (E.contains_finalizer user.meta user_finalizer)) [
          | inl k ↦
              rw (reconcile_user_deleting s k d)
                (Released-writes (reconcile_deleted-Released E user s))
          | inr k ↦ untouched s k
        ]
