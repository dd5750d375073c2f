-- ===== src/Apps/Uninstall/Down.antt =====
-- Uninstall takes the containers of an app down: what Docker has said then.
use nass.Common.{
  ◌≡◌, refl, ap, true, false, ◌⊎◌, inl, inr, Option, none, some, List, [], ◌∷◌, ◌++◌, Text,
  is_empty, All,
}
use nass.Host.{Host, Call, remove, remove_all, Trouble, Outcome, done, fails}
use nass.Host.Meets.{Comes, Meets, comes-return, comes-raise, comes-when, comes-caught}
use nass.Orchestrator.{Orchestrator, down_with_volumes, down_with_volumes_args}
use nass.Orchestrator.Commands.{IsRun, IsFailed, run-Comes}
use nass.Apps.Uninstall.{
  UninstallContext, is_missing_compose_file, down_outcome, down_with, take_down,
}

-- A call that removes nothing from the disk.
abbrev pub IsKeeping : Call → Type 0
IsKeeping (remove path) = ⊥
IsKeeping (remove_all path) = ⊥
IsKeeping c = Unit {0}

abbrev pub NoRemoval : Host → Host → Type 0
NoRemoval h h' = (new : List Call) × All IsKeeping new × (h'.calls ≡ new ++ h.calls)

module _ (uc : UninstallContext) where
  abbrev pub args : List Text
  args = down_with_volumes_args

  -- The containers are down for all that Docker says: there was nothing to run, or the command
  -- succeeded, or it has reported that the compose file is missing.
  abbrev pub IsDown : Host → Host → Type 0
  IsDown h h' =
      ((h' ≡ h) × ((is_empty uc.compose_file ≡ true) ⊎ (uc.orchestrator ≡ none)))
      ⊎ ((o : Orchestrator) × (uc.orchestrator ≡ some o)
          × (((out : Text) × IsRun o uc.compose_file args h out h')
              ⊎ ((t : Trouble) × IsFailed o uc.compose_file args h t h'
                  × (is_missing_compose_file t ≡ true))))

  -- The command has failed.
  abbrev pub IsUp : Host → Trouble → Host → Type 0
  IsUp h t h' =
      (o : Orchestrator) × (uc.orchestrator ≡ some o)
      × IsFailed o uc.compose_file args h t h'
      × (is_missing_compose_file t ≡ false)

  abbrev pub IsTried : Host → Option Trouble → Host → Type 0
  IsTried h none h' = IsDown h h'
  IsTried h (some t) h' = IsUp h t h' × (uc.force ≡ true)

  down_outcome-Comes :
      (h h' : Host) (o : Orchestrator) (outcome : Outcome Text)
      → uc.orchestrator ≡ some o
      → Meets (IsRun o uc.compose_file args h) (IsFailed o uc.compose_file args h) (outcome, h')
      → Comes h' (down_outcome uc.force outcome) (IsTried h) (λ t h''. (u : Trouble) × IsUp h u h'')
  down_outcome-Comes h h' o (done out) e m = comes-return _ (inr (o, e, inl (out, m)))
  down_outcome-Comes h h' o (fails t) e m =
      comes-when _ _ _ (λ missing. comes-return _ (inr (o, e, inr (t, m, missing))))
        (λ here.
          comes-when _ _ _ (λ forced. comes-return _ ((o, e, m, here), forced))
            (λ _. comes-raise _ (t, (o, e, m, here))))

  down_with-Comes :
      (h : Host) (o : Option Orchestrator)
      → uc.orchestrator ≡ o
      → Comes h (down_with uc o) (IsTried h) (λ t h'. (u : Trouble) × IsUp h u h')
  unfolding down_with_volumes
  down_with-Comes h none e = comes-return _ (inl (refl, inr e))
  down_with-Comes h (some o) e =
      comes-caught _ _ _ _ (run-Comes o uc.compose_file args h)
        (λ outcome h' m. down_outcome-Comes h h' o outcome e m)

  pub take_down-Comes :
      (h : Host) → Comes h (take_down uc) (IsTried h) (λ t h'. (u : Trouble) × IsUp h u h')
  take_down-Comes h =
      comes-when _ _ _ (λ t. comes-return _ (inl (refl, inl t)))
        (λ t. down_with-Comes h uc.orchestrator refl)

  -- To take an app down removes nothing, and does not touch the database.
  abbrev pub IsHarmless : Host → Host → Type 0
  IsHarmless h h' = NoRemoval h h' × (h'.world ≡ h.world)

  pub IsFailed-IsHarmless :
      (h h' : Host) (o : Orchestrator) (t : Trouble)
      → IsFailed o uc.compose_file args h t h'
      → IsHarmless h h'
  IsFailed-IsHarmless h h' o t (inl e) = (([], tt, ap (λ x. x.calls) e), ap (λ x. x.world) e)
  IsFailed-IsHarmless h h' o t (inr (c, x, out, (path, command, rest, p, d, e), _, same)) =
      ((c ∷ [], (rw e tt, tt), ap (λ x. x.calls) same), ap (λ x. x.world) same)

  pub IsTried-IsHarmless :
      (h h' : Host) (down : Option Trouble) → IsTried h down h' → IsHarmless h h'
  IsTried-IsHarmless h h' (some t) ((o, e, f, here), forced) = IsFailed-IsHarmless h h' o t f
  IsTried-IsHarmless h h' none (inl (e, why)) = (([], tt, ap (λ x. x.calls) e), ap (λ x. x.world) e)
  IsTried-IsHarmless h h' none
        (inr (o, e, inl (out, (c, (path, command, rest, p, d, i), _, same)))) =
      ((c ∷ [], (rw i tt, tt), ap (λ x. x.calls) same), ap (λ x. x.world) same)
  IsTried-IsHarmless h h' none (inr (o, e, inr (t, f, missing))) = IsFailed-IsHarmless h h' o t f
