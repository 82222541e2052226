-- ===== src/Sftpgo/Client/Requests.antt =====
-- What the methods of the client ask of the service, and how its answer becomes their result.
use text.Mathlib.TextLemmas.{append_assoc}
use sftpgo_operator.Base.{
  String, ◌<>◌, Bool, true, ◌||◌, ◌≡◌, ◌≢◌, refl, sym, ◌⊎◌, inl, inr, Option, none, some, List, [],
  ◌∷◌, Error, Result, ok, err, Exec, arith, eq_iff, ◌==◌, nat_eq, Bool-cases, Option-cases,
  Result-cases, if◌then◌else◌,
}
use sftpgo_operator.Api.Meta.{Kinds}
use sftpgo_operator.Kube.Env.{Request, Response, Env}
use sftpgo_operator.Kube.Calls.{Event, sent}
use sftpgo_operator.Sftpgo.Json.{Json}
use sftpgo_operator.Sftpgo.Payload.{UserPayload, encode_payload}
use sftpgo_operator.Sftpgo.Decode.{decode_payload, and_then}
use sftpgo_operator.Sftpgo.Client.{
  Client, Session, api_error, set_header, get_token, set_auth, get_user, create_user, update_user,
  delete_user,
}
use sftpgo_operator.Sftpgo.Client.Token.{
  AsksForToken, get_token-AsksForToken, get_token_ok, get_token_keeps,
}

abbrev pub no_credentials : Client → Bool
no_credentials c = c.username == "" || c.password == ""

-- The request with a bearer token, unless the client has no credentials.
abbrev pub Signed : Client → Request → Request → Type 0
Signed c req signed =
    ((no_credentials c ≡ true) × (signed ≡ req))
    ⊎ ((token : String) × (token ≢ "")
        × (signed ≡ set_header "Authorization" ("Bearer " <> token) req))

abbrev pub plain : String → String → Option Json → Request
plain method url body = record {
  method = method;
  url = url;
  basic_auth = none;
  headers = [];
  body = body;
}

abbrev pub user_url : Client → String → String
user_url c username = c.base_url <> ("/api/v2/users/" <> username)

pub update_path :
    (username : String)
    → username ≢ ""
    → "/api/v2/users" <> (if username == "" then "" else "/" <> username)
      ≡ "/api/v2/users/" <> username
update_path username h = elim (Bool-cases (username == "")) [
  | inl e ↦ absurd (h ((eq_iff username "").0 e))
  | inr e ↦ rw e (sym (append_assoc "/api/v2/users" "/" username))
]

abbrev pub unchanged : Request → Request
unchanged req = req

-- A call may change the token that the client keeps, and nothing else of it.
abbrev pub SameAccount : Client → Client → Type 0
SameAccount c d = (c.base_url ≡ d.base_url) × (c.username ≡ d.username) × (c.password ≡ d.password)

-- The results of the methods, as functions of the answer.
abbrev pub deleted : Result Response → Result (Unit {0})
deleted (err e) = err e
deleted (ok resp) = if nat_eq resp.status_code 200 then ok tt else err (api_error resp.status_code)

abbrev pub found : Result Response → Result (Option UserPayload)
found (err e) = err e
found (ok resp) =
    if nat_eq resp.status_code 404
    then ok none
    else if nat_eq resp.status_code 200
    then and_then resp.body (λ j. and_then (decode_payload j) (λ p. ok (some p)))
    else err (api_error resp.status_code)

abbrev pub stored : Result Response → Result UserPayload
stored (err e) = err e
stored (ok resp) =
    if nat_eq resp.status_code 200 || nat_eq resp.status_code 201
    then and_then resp.body (λ j. and_then (decode_payload j) ok)
    else err (api_error resp.status_code)

module _ {K : Kinds} {E : Env K} where
  -- How a method talks to the service. Either it fails before its own request, having asked for a
  -- token at most; or it sends its request once, after at most one request for a token, and its
  -- result is a function of the answer.
  abbrev pub Exchange :
      {A : Type 0}
      → Request
      → (Request → Request)
      → (Result Response → Result A)
      → Session E
      → Result A × Session E
      → Type 0
  Exchange req finish answer s (r, s') =
      ((e : Error) × (r ≡ err e) × AsksForToken s.client s.run.trace s'.run.trace)
      ⊎ ((signed : Request) × (reply : Result Response) × (before : List (Event K)) × Signed
            s.client req signed
          × AsksForToken s.client s.run.trace before
          × (s'.run.trace ≡ sent (finish signed) reply ∷ before)
          × (r ≡ answer reply))

module _ {K : Kinds} (E : Env K) where
  set_auth-AsksForToken :
      (req : Request) (s : Session E)
      → AsksForToken s.client s.run.trace (set_auth E req s).1.run.trace
  unfolding set_auth
  set_auth-AsksForToken req s = elim (Bool-cases (no_credentials s.client)) [
    | inl e ↦ rw e (inl refl)
    | inr e ↦ elim (Result-cases (get_token E s).0) [
      | inl (t, h) ↦ rw (e, h) (get_token-AsksForToken E s)
      | inr (x, h) ↦ rw (e, h) (get_token-AsksForToken E s)
    ]
  ]

  pub set_auth-Signed :
      (req : Request) (s : Session E) {signed : Request}
      → (set_auth E req s).0 ≡ ok signed
      → Signed s.client req signed
  unfolding set_auth
  set_auth-Signed req s {signed} h = elim (Bool-cases (no_credentials s.client)) [
    | inl e ↦ inl (e, ground arith)
    | inr e ↦ elim (Result-cases (get_token E s).0) [
      | inl (t, got) ↦ inr (t, (get_token_ok E s got).0, ground arith)
      | inr (x, got) ↦ ground arith
    ]
  ]

  -- The session after the request has been sent.
  abbrev pub after_send : Request → Session E → Session E
  after_send req t =
      let (reply, w) = E.send req t.run.world in
      record t { run = record { world = w; trace = sent req reply ∷ t.run.trace } }

  -- A method whose steps are those of the client's methods, on each way that they can go.
  module _ {A : Type 0} (req : Request) (finish : Request → Request)
      (answer : Result Response → Result A) (m : Exec (Session E) A) (s : Session E) where
    abbrev authorized : Result Request
    authorized = (set_auth E req s).0

    abbrev session : Session E
    session = (set_auth E req s).1

    steps-Exchange :
        ((e : Error) → E.request_error req.method req.url ≡ some e → m s ≡ (err e, s))
        → ((e : Error)
            → E.request_error req.method req.url ≡ none
            → authorized ≡ err e
            → m s ≡ (err e, session))
        → ((signed : Request)
            → E.request_error req.method req.url ≡ none
            → authorized ≡ ok signed
            → m s ≡ (
              answer (E.send (finish signed) session.run.world).0,
              after_send (finish signed) session,
            ))
        → Exchange req finish answer s (m s)
    steps-Exchange refused unsigned signs =
        elim (Option-cases (E.request_error req.method req.url)) [
          | inr (e, h) ↦ rw (refused e h) (inl (e, refl, inl refl))
          | inl fine ↦ elim (Result-cases authorized) [
            | inr (e, h) ↦ rw (unsigned e fine h) (inl (e, refl, set_auth-AsksForToken req s))
            | inl (signed, h) ↦ rw (signs signed fine h) (
                inr (
                  signed,
                  (E.send (finish signed) session.run.world).0,
                  session.run.trace,
                  set_auth-Signed req s h,
                  set_auth-AsksForToken req s,
                  refl,
                  refl,
                ))
          ]
        ]

  -- `DeleteUser` sends at most one DELETE, for the user, and its result is that of the answer:
  -- success at 200, and an error at any other status.
  pub delete_user-Exchange :
      (username : String) (s : Session E)
      → Exchange
          (plain "DELETE" (user_url s.client username) none)
          unchanged
          deleted
          s
          (delete_user E username s)
  unfolding delete_user
  delete_user-Exchange username s =
      steps-Exchange _ unchanged deleted (delete_user E username) s (λ e h. ground arith)
        (λ e fine h. ground arith) (λ signed fine h. ground arith)

  -- `GetUser` sends at most one GET, for the user, and its result is that of the answer: no user at
  -- 404, the decoded user at 200, and an error at any other status or at a body that does not decode.
  pub get_user-Exchange :
      (username : String) (s : Session E)
      → Exchange
          (plain "GET" (user_url s.client username) none)
          unchanged
          found
          s
          (get_user E username s)
  unfolding get_user
  get_user-Exchange username s =
      steps-Exchange _ unchanged found (get_user E username) s (λ e h. ground arith)
        (λ e fine h. ground arith) (λ signed fine h. ground arith)

  -- `CreateUser` sends at most one POST, of the payload to the list of users, and its result is that
  -- of the answer: the decoded user at 200 and 201, and an error at any other status or at a body
  -- that does not decode.
  pub create_user-Exchange :
      (p : UserPayload) (s : Session E)
      → Exchange
          (plain "POST" (s.client.base_url <> "/api/v2/users") (some (encode_payload p)))
          (set_header "Content-Type" "application/json")
          stored
          s
          (create_user E p s)
  unfolding create_user
  create_user-Exchange p s =
      steps-Exchange _ (set_header "Content-Type" "application/json") stored (create_user E p) s
        (λ e h. ground arith) (λ e fine h. ground arith) (λ signed fine h. ground arith)

  -- `UpdateUser` at a user name that is not empty sends at most one PUT, of the payload to the user,
  -- and its result is that of the answer: the decoded user at 200 and 201, and an error at any other
  -- status or at a body that does not decode.
  pub update_user-Exchange :
      (username : String) (p : UserPayload) (s : Session E)
      → username ≢ ""
      → Exchange
          (plain "PUT" (user_url s.client username) (some (encode_payload p)))
          (set_header "Content-Type" "application/json")
          stored
          s
          (update_user E username p s)
  unfolding update_user
  update_user-Exchange username p s named =
      let path = update_path username named in
      steps-Exchange (plain "PUT" (user_url s.client username) (some (encode_payload p)))
        (set_header "Content-Type" "application/json") stored (update_user E username p) s
        (λ e h. rw path (ground arith)) (λ e fine h. rw path (ground arith))
        (λ signed fine h. rw path (ground arith))

  set_auth_keeps :
      (req : Request) (s : Session E) → SameAccount (set_auth E req s).1.client s.client
  unfolding set_auth
  set_auth_keeps req s = ground (arith, get_token_keeps E s)

  pub get_user_keeps :
      (username : String) (s : Session E) → SameAccount (get_user E username s).1.client s.client
  unfolding get_user
  get_user_keeps username s =
      ground (arith, set_auth_keeps (plain "GET" (user_url s.client username) none) s)
