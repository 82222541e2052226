-- ===== src/Sftpgo/Client/Service.antt =====
-- What the service keeps of the users that it is sent.
use sftpgo_operator.Base.{
  String, ◌<>◌, true, ◌||◌, ◌≡◌, ◌≢◌, refl, sym, ap, ◌∙◌, Option, none, some, Error, Result, ok,
  err, Exec, arith, nat_eq, Option-cases, Result-cases, err-ne-ok, Bool-cases, inl, inr, List,
}
use sftpgo_operator.Api.Meta.{Kinds, Condition}
use sftpgo_operator.Api.UserTypes.{SftpGoUser}
use sftpgo_operator.Kube.Env.{Request, Response, Env}
use sftpgo_operator.Sftpgo.Json.{Json}
use sftpgo_operator.Sftpgo.Payload.{UserPayload, encode_payload}
use sftpgo_operator.Sftpgo.Client.{Client, Session, set_header, set_auth, create_user, update_user}
use sftpgo_operator.Sftpgo.Client.Requests.{
  user_url, plain, stored, update_path, Signed, set_auth-Signed, after_send,
}

-- What SFTPGo documents of its REST interface: a POST to the list of users that it answers with 200
-- or 201 creates the user that its body describes, and a PUT to a user makes the user what its body
-- describes. The other calls that the user controller makes after these do not change users.
pub record IsService {K : Kinds} (E : Env K) : Type 0 where
  -- the description that was taken last for the user at a URL
  pub user_at : E.World → String → Option Json
  pub takes_post :
      (base : String) (p : UserPayload) (req : Request) (w : E.World) (resp : Response)
      → req.method ≡ "POST"
      → req.url ≡ base <> "/api/v2/users"
      → req.body ≡ some (encode_payload p)
      → (E.send req w).0 ≡ ok resp
      → (nat_eq resp.status_code 200 || nat_eq resp.status_code 201) ≡ true
      → user_at (E.send req w).1 (base <> ("/api/v2/users/" <> p.username))
        ≡ some (encode_payload p)
  pub takes_put :
      (base username : String) (p : UserPayload) (req : Request) (w : E.World) (resp : Response)
      → req.method ≡ "PUT"
      → req.url ≡ base <> ("/api/v2/users/" <> username)
      → req.body ≡ some (encode_payload p)
      → (E.send req w).0 ≡ ok resp
      → (nat_eq resp.status_code 200 || nat_eq resp.status_code 201) ≡ true
      → user_at (E.send req w).1 (base <> ("/api/v2/users/" <> username)) ≡ some (encode_payload p)
  pub now_user_at : (w : E.World) → user_at (E.now w).1 ≡ user_at w
  pub set_status_condition_user_at :
      (cs : List Condition) (c : Condition) (w : E.World)
      → user_at (E.set_status_condition cs c w).1 ≡ user_at w
  pub update_user_status_user_at :
      (u : SftpGoUser K) (w : E.World) → user_at (E.update_user_status u w).1 ≡ user_at w

module _ {K : Kinds} (E : Env K) where
  -- A method that succeeded has sent its request, with headers at most added to it, and the answer
  -- was a success.
  abbrev pub Landed : Request → E.World → Type 0
  Landed req after =
      (signed : Request) × (w : E.World) × (resp : Response) × (signed.method ≡ req.method)
      × (signed.url ≡ req.url)
      × (signed.body ≡ req.body)
      × ((E.send signed w).0 ≡ ok resp)
      × ((nat_eq resp.status_code 200 || nat_eq resp.status_code 201) ≡ true)
      × (after ≡ (E.send signed w).1)

  abbrev json_header : Request → Request
  json_header = set_header "Content-Type" "application/json"

  stored_ok :
      (reply : Result Response) (p : UserPayload)
      → stored reply ≡ ok p
      → (resp : Response) × (reply ≡ ok resp)
        × ((nat_eq resp.status_code 200 || nat_eq resp.status_code 201) ≡ true)
  stored_ok (err e) p h = ground arith
  stored_ok (ok resp) p h =
      elim (Bool-cases (nat_eq resp.status_code 200 || nat_eq resp.status_code 201)) [
        | inl e ↦ (resp, refl, e)
        | inr e ↦ absurd (err-ne-ok _ p (rw e at h))
      ]

  Signed-same :
      (c : Client) (req signed : Request)
      → Signed c req signed
      → (signed.method ≡ req.method) × (signed.url ≡ req.url) × (signed.body ≡ req.body)
  Signed-same c req signed (inl (e, same)) =
      (ap (λ r. r.method) same, ap (λ r. r.url) same, ap (λ r. r.body) same)
  Signed-same c req signed (inr (token, given, same)) =
      (ap (λ r. r.method) same, ap (λ r. r.url) same, ap (λ r. r.body) same)

  module _ (req : Request) (m : Exec (Session E) UserPayload) (s : Session E) where
    abbrev authorized : Result Request
    authorized = (set_auth E req s).0

    abbrev session : Session E
    session = (set_auth E req s).1

    steps-Landed :
        ((e : Error) → E.request_error req.method req.url ≡ some e → m s ≡ (err e, s))
        → ((e : Error)
            → E.request_error req.method req.url ≡ none
            → authorized ≡ err e
            → m s ≡ (err e, session))
        → ((signed : Request)
            → E.request_error req.method req.url ≡ none
            → authorized ≡ ok signed
            → m s ≡ (
              stored (E.send (json_header signed) session.run.world).0,
              after_send E (json_header signed) session,
            ))
        → (p : UserPayload) → (m s).0 ≡ ok p
        → Landed req (m s).1.run.world
    steps-Landed refused unsigned signs p h =
        elim (Option-cases (E.request_error req.method req.url)) [
          | inr (e, k) ↦ absurd (err-ne-ok e p (ap (λ x. x.0) (sym (refused e k)) ∙ h))
          | inl fine ↦ elim (Result-cases authorized) [
            | inr (e, k) ↦ absurd (err-ne-ok e p (ap (λ x. x.0) (sym (unsigned e fine k)) ∙ h))
            | inl (signed, k) ↦
                let same = signs signed fine k in
                let (resp, answered, success) = stored_ok _ p (ap (λ x. x.0) (sym same) ∙ h) in
                let (method, url, body) =
                  Signed-same s.client req signed (set_auth-Signed E req s k) in
                (
                  json_header signed,
                  session.run.world,
                  resp,
                  method,
                  url,
                  body,
                  answered,
                  success,
                  ap (λ x. x.1.run.world) same,
                )
          ]
        ]

  pub create_user-Landed :
      (p q : UserPayload) (s : Session E)
      → (create_user E p s).0 ≡ ok q
      → Landed
          (plain "POST" (s.client.base_url <> "/api/v2/users") (some (encode_payload p)))
          (create_user E p s).1.run.world
  unfolding create_user
  create_user-Landed p q s =
      steps-Landed (plain "POST" (s.client.base_url <> "/api/v2/users") (some (encode_payload p)))
        (create_user E p) s (λ e h. ground arith) (λ e fine h. ground arith)
        (λ signed fine h. ground arith) q

  pub update_user-Landed :
      (username : String) (p q : UserPayload) (s : Session E)
      → username ≢ ""
      → (update_user E username p s).0 ≡ ok q
      → Landed
          (plain "PUT" (user_url s.client username) (some (encode_payload p)))
          (update_user E username p s).1.run.world
  unfolding update_user
  update_user-Landed username p q s named =
      let path = update_path username named in
      steps-Landed (plain "PUT" (user_url s.client username) (some (encode_payload p)))
        (update_user E username p) s (λ e h. rw path (ground arith))
        (λ e fine h. rw path (ground arith)) (λ signed fine h. rw path (ground arith)) q

  module _ (service : IsService E) where
    -- A user that was created or updated with success is what was sent.
    pub create_user-user_at :
        (p q : UserPayload) (s : Session E)
        → (create_user E p s).0 ≡ ok q
        → service.user_at (create_user E p s).1.run.world (user_url s.client p.username)
          ≡ some (encode_payload p)
    create_user-user_at p q s h =
        let (signed, w, resp, method, url, body, answered, success, after) =
          create_user-Landed p q s h in
        ap (λ v. service.user_at v (user_url s.client p.username)) after
        ∙ service.takes_post s.client.base_url p signed w resp method url body answered success

    pub update_user-user_at :
        (username : String) (p q : UserPayload) (s : Session E)
        → username ≢ ""
        → (update_user E username p s).0 ≡ ok q
        → service.user_at (update_user E username p s).1.run.world (user_url s.client username)
          ≡ some (encode_payload p)
    update_user-user_at username p q s named h =
        let (signed, w, resp, method, url, body, answered, success, after) =
          update_user-Landed username p q s named h in
        ap (λ v. service.user_at v (user_url s.client username)) after
        ∙ service.takes_put s.client.base_url username p signed w resp method url body answered
            success
