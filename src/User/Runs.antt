-- ===== src/User/Runs.antt =====
-- What a reconcile of a live user asks of SFTPGo, and what status it reports for which answer.
use sftpgo_operator.Base.{
  String, ◌<>◌, not, ◌&&◌, ◌≡◌, ◌≢◌, refl, ◌⊎◌, Option, none, some, List, [], ◌∷◌, ℤ, Error, Result,
  ok, err, pure, continue, inl, inr, arith, eq_iff, ◌==◌, nonempty, Result-cases, Bool-cases,
  if◌then◌else◌,
}
use sftpgo_operator.Api.Meta.{Kinds}
use sftpgo_operator.Api.UserTypes.{SftpGoUser, SftpGoUserSpec}
use sftpgo_operator.Kube.Env.{Request, Response, Env}
use sftpgo_operator.Kube.Calls.{Run, Event, put_user_status, sent, Outcome, done}
use sftpgo_operator.Sftpgo.Payload.{UserPayload, user_from_cr, encode_payload}
use sftpgo_operator.Sftpgo.Payload.Laws.{user_from_cr-eq-payload_of}
use sftpgo_operator.Sftpgo.Client.{Client, Session, set_header, get_user, create_user, update_user}
use sftpgo_operator.Sftpgo.Client.Token.{AsksForToken}
use sftpgo_operator.Sftpgo.Client.Requests.{
  Signed, plain, user_url, Exchange, unchanged, found, stored, create_user-Exchange,
  get_user-Exchange, update_user-Exchange, SameAccount, get_user_keeps,
}
use sftpgo_operator.User.Reconcile.{report, finish, conclude, upsert, sync}

abbrev pub json_header : Request → Request
json_header = set_header "Content-Type" "application/json"

-- `UserFromCR` has left an empty password out already, so clearing it again changes nothing.
pub cleared_payload :
    (spec : SftpGoUserSpec) (password : String) (keys : List String) (n : ℤ)
    → let payload = user_from_cr spec password keys in
      (if password == ""
        then record payload { id = n; password = "" }
        else record payload { id = n })
      ≡ record payload { id = n }
cleared_payload spec password keys n = elim (Bool-cases (password == "")) [
  | inl e ↦
      let none_given : password ≡ "" = (eq_iff password "").0 e in
      rw (e, user_from_cr-eq-payload_of spec password keys, none_given)
  | inr e ↦ rw e
]

-- The user that is written differs in its status alone, and the status says so.
abbrev pub Shows : {K : Kinds} → SftpGoUser K → String → SftpGoUser K → Type 0
Shows user phase m = (m.status.phase ≡ phase) × (m.meta ≡ user.meta) × (m.spec ≡ user.spec)

module _ {K : Kinds} (E : Env K) (user : SftpGoUser K) (password : String)
    (keys : List String) where
  abbrev payload : UserPayload
  payload = user_from_cr user.spec password keys

  -- The request that brings SFTPGo up to date: a POST of the payload if there is no such user, and
  -- then a password or a key is given; a PUT of the payload under the user's id if there is one.
  abbrev pub Wanted : Client → Option UserPayload → Request → Type 0
  Wanted c none req =
      ((password ≢ "") ⊎ (keys ≢ []))
      × (req ≡ plain "POST" (c.base_url <> "/api/v2/users") (some (encode_payload payload)))
  Wanted c (some p) req =
      req
      ≡ plain "PUT" (user_url c user.spec.username)
          (some (encode_payload (record payload { id = p.id })))

  -- The id that the status shows: that of the user found, or what it showed before.
  abbrev pub id_after : Option UserPayload → ℤ
  id_after none = user.status.user_id
  id_after (some p) = p.id

  -- The ways for the last part of a run to end, with its result.
  pub data Upserted (c : Client) (existing : Option UserPayload) (old : List (Event K))
      : Result Outcome → List (Event K) → Type 0 where
    -- nothing to log in with: no request, no error, no retry
    invalid :
        {m : SftpGoUser K} {reply : Result (Unit {0})}
        → existing ≡ none
        → password ≡ ""
        → keys ≡ []
        → Shows user "Error" m
        → Upserted c existing old (ok done) (put_user_status m reply ∷ old)
    -- the request could not be made, for want of a token or of a valid URL
    unsent :
        {m : SftpGoUser K} {reply : Result (Unit {0})} {e : Error} {t : List (Event K)}
        → AsksForToken c old t
        → Shows user "Error" m
        → Upserted c existing old (err e) (put_user_status m reply ∷ t)
    refused :
        {m : SftpGoUser K} {reply : Result (Unit {0})} {e : Error} {t : List (Event K)}
        {req signed : Request} {answer : Result Response}
        → Wanted c existing req
        → Signed c req signed
        → AsksForToken c old t
        → stored answer ≡ err e
        → Shows user "Error" m
        → Upserted c existing old
            (err e)
            (put_user_status m reply ∷ sent (json_header signed) answer ∷ t)
    -- confirmed by SFTPGo; the run ends as the status update does
    synced :
        {final : SftpGoUser K} {reply : Result (Unit {0})} {p : UserPayload} {t : List (Event K)}
        {req signed : Request} {answer : Result Response} {r : Result Outcome}
        → Wanted c existing req
        → Signed c req signed
        → AsksForToken c old t
        → stored answer ≡ ok p
        → Shows user "Synced" final
        → final.status.user_id ≡ id_after existing
        → ((reply ≡ ok tt) × (r ≡ ok done)) ⊎ ((e : Error) × (reply ≡ err e) × (r ≡ err e))
        → Upserted c existing old r
            (put_user_status final reply ∷ sent (json_header signed) answer ∷ t)

  -- The status update is the last step, and its answer the answer of the run.
  continue-Upserted :
      {c : Client} {existing : Option UserPayload} {old t u : List (Event K)} {req signed : Request}
      {answer : Result Response} {p : UserPayload} {final : SftpGoUser K}
      (reply : Result (Unit {0})) (s : Run E)
      → s.trace ≡ put_user_status final reply ∷ u
      → u ≡ sent (json_header signed) answer ∷ t
      → Wanted c existing req
      → Signed c req signed
      → AsksForToken c old t
      → stored answer ≡ ok p
      → Shows user "Synced" final
      → final.status.user_id ≡ id_after existing
      → Upserted c existing old
          (continue reply (λ _. pure done) s).0
          (continue reply (λ _. pure done) s).1.trace
  continue-Upserted (ok tt) s h v w g a k ph id =
      rw (h, v) (synced w g a k ph id (inl (refl, refl)))
  continue-Upserted (err e) s h v w g a k ph id =
      rw (h, v) (synced w g a k ph id (inr (e, refl, refl)))

  conclude-Upserted :
      (existing : Option UserPayload) (req : Request) (s : Session E)
      (out : Result UserPayload × Session E)
      → Wanted s.client existing req
      → Exchange req json_header stored s out
      → Upserted s.client existing s.run.trace
          (conclude E user existing out.0 out.1.run).0
          (conclude E user existing out.0 out.1.run).1.trace
  unfolding conclude report finish
  conclude-Upserted existing req s out w (inl (e, h, asks)) = rw h (unsent asks (refl, refl, refl))
  conclude-Upserted existing req s out w (inr (signed, answer, t, g, asks, ht, hr)) =
      elim (Result-cases (stored answer)) [
        | inr (e, k) ↦ rw (hr, k, ht) (refused w g asks k (refl, refl, refl))
        | inl (p, k) ↦
            rw (hr, k)
              (continue-Upserted _ _ refl ht w g asks k (ground arith, ground arith, ground arith)
                (ground arith))
      ]

  upsert-Upserted :
      (existing : Option UserPayload) (s : Session E)
      → user.spec.username ≢ ""
      → Upserted s.client existing s.run.trace
          (upsert E user password keys existing s).0
          (upsert E user password keys existing s).1.run.trace
  unfolding upsert report
  upsert-Upserted none s named = elim (Bool-cases (password == "" && not (nonempty keys))) [
    | inl e ↦
        rw e (invalid refl (ground (arith, eq_iff password "")) (ground arith) (refl, refl, refl))
    | inr e ↦ rw e (
        conclude-Upserted none _ s (create_user E payload s)
          (ground (arith, eq_iff password ""), refl) (create_user-Exchange E payload s))
  ]
  upsert-Upserted (some p) s named = rw (cleared_payload user.spec password keys p.id) (
      conclude-Upserted (some p) _ s
        (update_user E user.spec.username (record payload { id = p.id }) s) refl
        (update_user-Exchange E user.spec.username (record payload { id = p.id }) s named))

  -- The ways for the exchange with SFTPGo to end. Either the user cannot be looked up; or it is
  -- looked up, and what follows goes by what was found.
  pub data Synchronized (c : Client) (old : List (Event K))
      : Result Outcome → List (Event K) → Type 0 where
    unasked :
        {m : SftpGoUser K} {reply : Result (Unit {0})} {e : Error} {t : List (Event K)}
        → AsksForToken c old t
        → Shows user "Error" m
        → Synchronized c old (err e) (put_user_status m reply ∷ t)
    not_answered :
        {m : SftpGoUser K} {reply : Result (Unit {0})} {e : Error} {t : List (Event K)}
        {signed : Request} {answer : Result Response}
        → Signed c (plain "GET" (user_url c user.spec.username) none) signed
        → AsksForToken c old t
        → found answer ≡ err e
        → Shows user "Error" m
        → Synchronized c old (err e) (put_user_status m reply ∷ sent signed answer ∷ t)
    looked_up :
        {t u : List (Event K)} {signed : Request} {answer : Result Response}
        {existing : Option UserPayload} {d : Client} {r : Result Outcome}
        → Signed c (plain "GET" (user_url c user.spec.username) none) signed
        → AsksForToken c old t
        → found answer ≡ ok existing
        → SameAccount d c
        → Upserted d existing (sent signed answer ∷ t) r u
        → Synchronized c old r u

  -- For a user whose name is not empty, whatever SFTPGo and the cluster answer: the user is looked
  -- up first, with one GET; then it is created or updated with at most one POST or PUT, which
  -- carries the payload of the custom resource, and a POST only with a password or a key. A run
  -- whose POST or PUT was answered 200 or 201 with a user in the body ends with the status "Synced",
  -- which shows the id of the user that was looked up, or the old one after a POST. Every other run
  -- ends with the status "Error" and the error that occurred as its result, or no error if there
  -- was neither a password nor a key to create the user with.
  pub sync-Synchronized :
      (s : Session E)
      → user.spec.username ≢ ""
      → Synchronized s.client s.run.trace
          (sync E user password keys s).0
          (sync E user password keys s).1.run.trace
  unfolding sync report
  sync-Synchronized s named = go (get_user-Exchange E user.spec.username s)
    where
      go :
          Exchange
            (plain "GET" (user_url s.client user.spec.username) none)
            unchanged
            found
            s
            (get_user E user.spec.username s)
          → Synchronized s.client s.run.trace
              (sync E user password keys s).0
              (sync E user password keys s).1.run.trace
      go (inl (e, h, asks)) = rw h (unasked asks (refl, refl, refl))
      go (inr (signed, answer, t, g, asks, ht, hr)) = elim (Result-cases (found answer)) [
        | inr (e, k) ↦ rw (hr, k, ht) (not_answered g asks k (refl, refl, refl))
        | inl (existing, k) ↦
            let s' = (get_user E user.spec.username s).1 in
            rw (hr, k)
              (looked_up g asks k (get_user_keeps E user.spec.username s)
                (rw ht at (upsert-Upserted existing s' named)))
      ]
