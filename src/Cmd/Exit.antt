-- ===== src/Cmd/Exit.antt =====
-- How the process ends.
use sftpgo_operator.Base.{
  ◌≡◌, refl, ap, ◌⊎◌, inl, inr, List, [], ◌∷◌, ◌++◌, Error, Result, ok, err, Result-cases, subst,
  sym,
}
use sftpgo_operator.Cmd.Main.{Flags, Platform, Step, main, started}
use sftpgo_operator.Cmd.Plan.{follow, plan, main-plan}

-- The steps, all successful, on top of a trace.
abbrev pub after : List Step → List (Step × Result (Unit {0})) → List (Step × Result (Unit {0}))
after [] trace = trace
after (s ∷ steps) trace = after steps ((s, ok tt) ∷ trace)

-- Either all steps of a list were made, with success; or those before one of them were, and that
-- one failed.
abbrev pub Halted :
    List Step
    → List (Step × Result (Unit {0}))
    → Result (Unit {0})
    → List (Step × Result (Unit {0}))
    → Type 0
Halted steps old r trace =
    ((r ≡ ok tt) × (trace ≡ after steps old))
    ⊎ ((before : List Step) × (s : Step) × (rest : List Step) × (e : Error) × (steps
          ≡ before ++ s ∷ rest)
        × (r ≡ err e)
        × (trace ≡ (s, err e) ∷ after before old))

module _ (P : Platform) where
  Halted-cons :
      (s : Step) (steps : List Step) (old trace : List (Step × Result (Unit {0})))
      (r : Result (Unit {0}))
      → Halted steps ((s, ok tt) ∷ old) r trace
      → Halted (s ∷ steps) old r trace
  Halted-cons s steps old trace r (inl (h, k)) = inl (h, k)
  Halted-cons s steps old trace r (inr (before, t, rest, e, split, h, k)) =
      inr (s ∷ before, t, rest, e, ap (λ l. s ∷ l) split, h, k)

  follow-Halted :
      (steps : List Step) (w : P.World) (old : List (Step × Result (Unit {0})))
      → Halted steps old (follow P steps w old).0 (follow P steps w old).2
  unfolding follow
  follow-Halted [] w old = inl (refl, refl)
  follow-Halted (s ∷ steps) w old = elim (Result-cases (P.perform s w).0) [
    | inl (x, h) ↦
        rw (h, follow)
          (Halted-cons s steps old _ _ (follow-Halted steps (P.perform s w).1 ((s, ok x) ∷ old)))
    | inr (e, h) ↦ rw (h, follow) (inr ([], s, steps, e, refl, refl, refl))
  ]

  -- The process makes the steps of its plan in their order, up to the first that fails. It ends
  -- without an error exactly if all of them succeed, and otherwise with the error of the step that
  -- failed, with no step after it.
  pub main-Halted :
      (flags : Flags) (w : P.World)
      → Halted (plan P flags) [] (main P flags (started P w)).0 (main P flags (started P w)).1.trace
  main-Halted flags w =
      subst (λ out. Halted (plan P flags) [] out.0 out.2) (sym (main-plan P flags w))
        (follow-Halted (plan P flags) w [])
