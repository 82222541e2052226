-- ===== src/Tests/User.antt =====
-- The user controller at the sample user.
use sftpgo_operator.Base.{String, ◌≡◌, ◌≢◌, refl, List, [], ◌∷◌, inr, arith, eq_iff, All}
use sftpgo_operator.Base.Text.{is_space}
use sftpgo_operator.User.Keys.{parse_keys}
use sftpgo_operator.User.Keys.Format.{Line, entry, comment, blank, IsKey, OnOneLine, file, IsLine}
use sftpgo_operator.User.Keys.Laws.{parse_keys-file, parse_keys-AllKeys}
use sftpgo_operator.User.Live.{Lived, reconcile_live-Lived}
use sftpgo_operator.User.Secrets.{
  PasswordFrom, KeysFrom, resolve_password-PasswordFrom, resolve_public_keys-KeysFrom,
}
use sftpgo_operator.User.Reconcile.{
  reconcile_live, resolve_password, resolve_public_keys, reconcile_user, sync,
}
use sftpgo_operator.User.Runs.{Synchronized, sync-Synchronized}
use sftpgo_operator.User.Deletion.{Released, reconcile_user-Released}
use sftpgo_operator.User.Writes.{writes, reconcile_user-writes}
use sftpgo_operator.Tests.Samples.{
  sample_user, deleted_user, sample_env, later, sample_client, session,
}

reconcile_user-Released_example :
    Released sample_env deleted_user []
      (reconcile_user sample_env deleted_user later).0
      (reconcile_user sample_env deleted_user later).1.trace
reconcile_user-Released_example = reconcile_user-Released sample_env deleted_user later refl refl

reconcile_user-writes_example : writes (reconcile_user sample_env deleted_user later).1.trace ≡ []
reconcile_user-writes_example = reconcile_user-writes sample_env deleted_user later (inr refl)

alice_named : ◌≢◌ {A = String} "alice" ""
alice_named = ground (arith, eq_iff "alice" "")

sync-Synchronized_example :
    Synchronized sample_env sample_user "pw" [] sample_client []
      (sync sample_env sample_user "pw" [] session).0
      (sync sample_env sample_user "pw" [] session).1.run.trace
sync-Synchronized_example = sync-Synchronized sample_env sample_user "pw" [] session alice_named

abbrev key_lines : List Line
key_lines =
    comment "" " work" ∷ entry "  " "ssh-ed25519 AAAA alice" "\r" ∷ blank "" ∷ entry "" "k2" "" ∷ []

key_lines-IsLine : All IsLine key_lines
unfolding is_space
key_lines-IsLine = (
  (refl, refl),
  (
    (refl, (λ h. omega (arith, h), refl, refl), refl, refl),
    ((refl, refl), ((refl, (λ h. omega (arith, h), refl, refl), refl, refl), tt)),
  ),
)

parse_keys-file_example : parse_keys (file key_lines) ≡ "ssh-ed25519 AAAA alice" ∷ "k2" ∷ []
parse_keys-file_example = parse_keys-file key_lines key_lines-IsLine

parse_keys-AllKeys_example : All (λ k. IsKey k × OnOneLine k) (parse_keys " a \n#b\nc")
parse_keys-AllKeys_example = parse_keys-AllKeys " a \n#b\nc"

reconcile_live-Lived_example :
    Lived sample_env sample_user []
      (reconcile_live sample_env sample_user later).0
      (reconcile_live sample_env sample_user later).1.trace
reconcile_live-Lived_example = reconcile_live-Lived sample_env sample_user later alice_named

resolve_password-PasswordFrom_example :
    PasswordFrom sample_user []
      (resolve_password sample_env sample_user later).0
      (resolve_password sample_env sample_user later).1.trace
resolve_password-PasswordFrom_example = resolve_password-PasswordFrom sample_env sample_user later

resolve_public_keys-KeysFrom_example :
    KeysFrom sample_user []
      (resolve_public_keys sample_env sample_user later).0
      (resolve_public_keys sample_env sample_user later).1.trace
resolve_public_keys-KeysFrom_example = resolve_public_keys-KeysFrom sample_env sample_user later
