-- ===== src/User/Secrets.antt =====
-- Where the password and the public keys of a user come from.
use sftpgo_operator.Base.{
  String, Bool, true, false, not, Option, none, some, List, [], ◌∷◌, Error, Result, ok, err, ◌==◌,
  nonempty, Bool-cases, Option-cases, Result-cases, inl, inr,
}
use sftpgo_operator.Base.Text.{get_or_empty}
use sftpgo_operator.Api.Meta.{Kinds, NamespacedName, Secret}
use sftpgo_operator.Api.UserTypes.{SftpGoUser, SecretRef}
use sftpgo_operator.Kube.Env.{Env}
use sftpgo_operator.Kube.Calls.{Run, Event, got_secret}
use sftpgo_operator.User.Keys.{parse_keys}
use sftpgo_operator.User.Reconcile.{resolve_password, resolve_public_keys}

-- A value is given in the specification, or it is what is read from an entry of a secret, or it is
-- the value for nothing given. A secret is read only if no value is given, and at most once.
pub data Resolved {K : Kinds} {A : Type 0} (namespace : String) (given : A) (nothing : A)
    (parse : String → A) (old : List (Event K))
    : Bool → Option SecretRef → Result A → List (Event K) → Type 0 where
  in_spec :
      {ref : Option SecretRef} → Resolved namespace given nothing parse old true ref (ok given) old
  nowhere : Resolved namespace given nothing parse old false none (ok nothing) old
  unreadable :
      {entry : SecretRef} {e : Error}
      → Resolved namespace given nothing parse old false
          (some entry)
          (err e)
          (got_secret (record { name = entry.name; namespace = namespace }) (err e) ∷ old)
  in_secret :
      {entry : SecretRef} {secret : Secret}
      → Resolved namespace given nothing parse old false
          (some entry)
          (ok (parse (get_or_empty secret.contents entry.key)))
          (got_secret (record { name = entry.name; namespace = namespace }) (ok secret) ∷ old)

abbrev pub PasswordFrom :
    {K : Kinds} → SftpGoUser K → List (Event K) → Result String → List (Event K) → Type 0
PasswordFrom user old =
    Resolved user.meta.namespace user.spec.password "" (λ entry. entry) old
      (not (user.spec.password == "")) user.spec.password_secret_ref

abbrev pub KeysFrom :
    {K : Kinds} → SftpGoUser K → List (Event K) → Result (List String) → List (Event K) → Type 0
KeysFrom user old =
    Resolved user.meta.namespace user.spec.public_keys [] parse_keys old
      (nonempty user.spec.public_keys) user.spec.public_keys_secret_ref

module _ {K : Kinds} (E : Env K) (user : SftpGoUser K) (s : Run E) where
  -- The password is the one in the specification, or else the entry of the secret that is referred
  -- to, or empty; an error is that of reading the secret. The secret is read only where the
  -- specification has no password, once, in the namespace of the user.
  pub resolve_password-PasswordFrom :
      PasswordFrom user s.trace (resolve_password E user s).0 (resolve_password E user s).1.trace
  unfolding resolve_password
  resolve_password-PasswordFrom = elim (Bool-cases (user.spec.password == "")) [
    | inr e ↦ rw e in_spec
    | inl e ↦ elim (Option-cases user.spec.password_secret_ref) [
      | inl h ↦ rw (e, h) nowhere
      | inr (ref, h) ↦
          let key : NamespacedName = record { name = ref.name; namespace = user.meta.namespace } in
          elim (Result-cases (E.get_secret key s.world).0) [
            | inl (secret, k) ↦ rw (e, h, k) in_secret
            | inr (x, k) ↦ rw (e, h, k) unreadable
          ]
    ]
  ]

  -- The keys are those in the specification, or else those that the entry of the secret that is
  -- referred to holds, or none; an error is that of reading the secret. The secret is read only
  -- where the specification has no key, once, in the namespace of the user.
  pub resolve_public_keys-KeysFrom :
      KeysFrom user s.trace (resolve_public_keys E user s).0 (resolve_public_keys E user s).1.trace
  unfolding resolve_public_keys
  resolve_public_keys-KeysFrom = elim (Bool-cases (nonempty user.spec.public_keys)) [
    | inl e ↦ rw e in_spec
    | inr e ↦ elim (Option-cases user.spec.public_keys_secret_ref) [
      | inl h ↦ rw (e, h) nowhere
      | inr (ref, h) ↦
          let key : NamespacedName = record { name = ref.name; namespace = user.meta.namespace } in
          elim (Result-cases (E.get_secret key s.world).0) [
            | inl (secret, k) ↦ rw (e, h, k) in_secret
            | inr (x, k) ↦ rw (e, h, k) unreadable
          ]
    ]
  ]
