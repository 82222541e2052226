-- ===== src/Server/Conditions.antt =====
-- What becomes of the condition "Degraded" that a failed reconcile leaves in the status.
use sftpgo_operator.Base.{
  String, ◌≡◌, ◌≢◌, refl, ◌∙◌, Option, none, some, List, [], ◌∷◌, Result, ok, arith, ap, eq_iff,
  ◌==◌, if◌then◌else◌,
}
use sftpgo_operator.Api.Meta.{Kinds, Condition}
use sftpgo_operator.Api.ServerTypes.{SftpGoServer}
use sftpgo_operator.Kube.Env.{Env}
use sftpgo_operator.Kube.Calls.{Run, Event, put_server_status, Outcome}
use sftpgo_operator.Server.Reconcile.{reconcile_live}
use sftpgo_operator.Server.Runs.{Ended, finished, ready, reconcile_live-Ended}

-- The condition of a type.
abbrev pub find_condition : String → List Condition → Option Condition
find_condition type [] = none
find_condition type (c ∷ cs) = if c.type == type then some c else find_condition type cs

-- What apimachinery documents of `SetStatusCondition`: conditions of other types stay.
pub record IsConditionSetter {K : Kinds} (E : Env K) : Type 0 where
  pub keeps_others :
      (cs : List Condition) (c : Condition) (w : E.World) (type : String)
      → type ≢ c.type
      → find_condition type (E.set_status_condition cs c w).0 ≡ find_condition type cs

module _ {K : Kinds} (E : Env K) (laws : IsConditionSetter E) (server : SftpGoServer K) where
  degraded_at_end :
      {old trace : List (Event K)} {r : Result Outcome} {o : Outcome}
      → Ended E server old r trace
      → r ≡ ok o
      → (final : SftpGoServer K) × (t : List (Event K)) × (trace
          ≡ put_server_status final (ok tt) ∷ t)
        × (find_condition "Degraded" final.status.conditions
            ≡ find_condition "Degraded" server.status.conditions)
  degraded_at_end (finished {t = t} {final = final} x running) h =
      let (w, same) = running.conditions in
      (
        final,
        t,
        refl,
        ap (find_condition "Degraded") same
            ∙ laws.keeps_others server.status.conditions (ready E server) w "Degraded"
                (ground (arith, eq_iff "Degraded" "Ready")),
      )
  degraded_at_end _ h = cc

  -- Where `SetStatusCondition` keeps conditions of other types, a successful reconcile of a live
  -- server reports "Degraded" as it found it: a failure that an earlier reconcile reported there is
  -- still reported when the server is running again.
  pub reconcile_live_keeps_degraded :
      (s : Run E) {o : Outcome}
      → (reconcile_live E server s).0 ≡ ok o
      → (final : SftpGoServer K) × (t : List (Event K)) × ((reconcile_live E server s).1.trace
          ≡ put_server_status final (ok tt) ∷ t)
        × (find_condition "Degraded" final.status.conditions
            ≡ find_condition "Degraded" server.status.conditions)
  reconcile_live_keeps_degraded s h = degraded_at_end (reconcile_live-Ended E server s) h
