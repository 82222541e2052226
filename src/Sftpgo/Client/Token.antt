-- ===== src/Sftpgo/Client/Token.antt =====
-- `getToken`: when the token of an earlier call serves again, and what a new one leaves behind.
use sftpgo_operator.Base.{
  ◌+◌, ◌<◌, String, ◌<>◌, ◌≡◌, ◌≢◌, refl, ◌⊎◌, inl, inr, ◌↔◌, sym, ap, ◌∙◌, ℕ, none, some, List, [],
  ◌∷◌, Error, Result, ok, err, arith, eq_iff, ◌==◌, ltb, Bool-cases, Option-cases,
}
use sftpgo_operator.Api.Meta.{Kinds}
use sftpgo_operator.Kube.Env.{Request, Response, Env}
use sftpgo_operator.Kube.Calls.{Event, sent}
use sftpgo_operator.Sftpgo.Client.{Client, Session, minutes, fetch_token, get_token}

abbrev pub token_request : Client → Request
token_request c = record {
  method = "GET";
  url = c.base_url <> "/api/v2/token";
  basic_auth = some (c.username, c.password);
  headers = [];
  body = none;
}

-- Either no request was made, or one for a token with the user name and the password.
abbrev pub AsksForToken : {K : Kinds} → Client → List (Event K) → List (Event K) → Type 0
AsksForToken {K} c old new =
    (new ≡ old) ⊎ ((reply : Result Response) × (new ≡ sent (token_request c) reply ∷ old))

abbrev size : {A : Type 0} → List A → ℕ
size [] = 0
size (x ∷ l) = size l + 1

cons_ne : {A : Type 0} (x : A) (l : List A) → x ∷ l ≢ l
cons_ne x l h = let k : size l + 1 ≡ size l = ap size h in omega arith

module _ {K : Kinds} (E : Env K) where
  fetch_token-AsksForToken :
      (s : Session E) → AsksForToken s.client s.run.trace (fetch_token E s).1.run.trace
  unfolding fetch_token
  fetch_token-AsksForToken s =
      elim (Option-cases (E.request_error "GET" (s.client.base_url <> "/api/v2/token"))) [
        | inl e ↦ inr ((E.send (token_request s.client) s.run.world).0, ground arith)
        | inr (r, e) ↦ inl (ground arith)
      ]

  fetch_token_asks :
      (s : Session E) (t : String)
      → (fetch_token E s).0 ≡ ok t
      → (fetch_token E s).1.run.trace ≢ s.run.trace
  unfolding fetch_token
  fetch_token_asks s t h same =
      elim (Option-cases (E.request_error "GET" (s.client.base_url <> "/api/v2/token"))) [
        | inl e ↦
            let asked : sent (token_request s.client)
                    (E.send (token_request s.client) s.run.world).0
                  ∷ s.run.trace
                ≡ (fetch_token E s).1.run.trace =
              ground arith in
            cons_ne _ s.run.trace (asked ∙ same)
        | inr (r, e) ↦ ground arith
      ]

  -- A call of `getToken` makes at most one request, and that is one for a token.
  pub get_token-AsksForToken :
      (s : Session E) → AsksForToken s.client s.run.trace (get_token E s).1.run.trace
  unfolding get_token
  get_token-AsksForToken s =
      let (t, w) = E.now s.run.world in
      let later : Session E = record s { run = record s.run { world = w } } in
      elim (Bool-cases (s.client.token == "")) [
        | inl e ↦ rw e (fetch_token-AsksForToken s)
        | inr e ↦ elim (Bool-cases (ltb (t + minutes 2) s.client.token_exp)) [
          | inl fresh ↦ rw (e, fresh) (inl refl)
          | inr stale ↦ rw (e, stale) (fetch_token-AsksForToken later)
        ]
      ]

module _ {K : Kinds} (E : Env K) (s : Session E) where
  abbrev pub after : Session E
  after = (get_token E s).1

  -- A call that returns a token has made no request exactly if the client had that token, and it
  -- is good for more than two minutes.
  pub get_token_reuse :
      {t : String}
      → (get_token E s).0 ≡ ok t
      → (after.run.trace ≡ s.run.trace) ↔ (
          (s.client.token ≡ t)
          × (t ≢ "")
          × ((E.now s.run.world).0 + minutes 2 < s.client.token_exp))
  unfolding get_token
  get_token_reuse {t} h =
      let (now, w) = E.now s.run.world in
      let later : Session E = record s { run = record s.run { world = w } } in
      elim (Bool-cases (s.client.token == "")) [
        | inl e ↦
            let run : get_token E s ≡ fetch_token E s = rw e refl in
            (
              λ same. absurd (
                  fetch_token_asks E s t (ap (λ x. x.0) (sym run) ∙ h)
                    (ap (λ x. x.1.run.trace) (sym run) ∙ same)),
              λ (kept, given, fresh). absurd (given (sym kept ∙ (eq_iff s.client.token "").0 e)),
            )
        | inr e ↦ elim (Bool-cases (ltb (now + minutes 2) s.client.token_exp)) [
          | inl fresh ↦
              let run : get_token E s ≡ (ok s.client.token, later) = rw (e, fresh) refl in
              let kept : ok s.client.token ≡ ok t = ap (λ x. x.0) (sym run) ∙ h in
              (λ same. ground (arith, eq_iff s.client.token ""), λ x. ap (λ x. x.1.run.trace) run)
          | inr stale ↦
              let run : get_token E s ≡ fetch_token E later = rw (e, stale) refl in
              (
                λ same. absurd (
                    fetch_token_asks E later t (ap (λ x. x.0) (sym run) ∙ h)
                      (ap (λ x. x.1.run.trace) (sym run) ∙ same)),
                λ x. ground arith,
              )
        ]
      ]

  -- A token that is returned is not empty, and the client keeps it.
  pub get_token_ok : {t : String} → (get_token E s).0 ≡ ok t → (t ≢ "") × (after.client.token ≡ t)
  unfolding get_token
  get_token_ok {t} h = ground (arith, eq_iff s.client.token "", eq_iff t "")

  -- A failed call leaves the client as it was.
  pub get_token_err : {e : Error} → (get_token E s).0 ≡ err e → after.client ≡ s.client
  unfolding get_token
  get_token_err h = ground arith

  -- The address and the credentials of the client never change.
  pub get_token_keeps :
      (after.client.base_url ≡ s.client.base_url)
      × (after.client.username ≡ s.client.username)
      × (after.client.password ≡ s.client.password)
  unfolding get_token
  get_token_keeps = ground arith
