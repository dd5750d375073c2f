-- ===== src/Apps/Uninstall/Removal.antt =====
-- When Uninstall removes what from the disk, and when from the database.
use nass.Common.{
  if◌then◌else◌, ◌≡◌, refl, sym, ap, ◌∙◌, true, not, ◌&&◌, ◌⊎◌, inl, inr, Option, none, some, List,
  [], ◌∷◌, ◌++◌, Text, is_empty, dir,
}
use mathlib.Core.Path.{subst}
use nass.Host.{Host, Call, remove, remove_all, Trouble, Outcome, done, fails, asked}
use nass.Host.Meets.{
  Comes, Meets, comes-return, comes-raise, comes-to, comes-wrapped, comes-when, comes-bind,
  comes-caught, comes-act,
}
use nass.Apps.Uninstall.{
  UninstallContext, removed_file, remove_data, remove_compose, remove_files, uninstall,
}
use nass.Apps.Uninstall.Down.{
  NoRemoval, IsDown, IsUp, IsTried, IsFailed-IsHarmless, IsTried-IsHarmless, take_down-Comes,
}
use nass.Apps.Uninstall.Forgetting.{IsForgotten, forget_app-Comes}

module _ (uc : UninstallContext) where
  -- What is removed, the last first.
  abbrev pub data_removals : List Call
  data_removals =
      if not uc.keep_data && not (is_empty uc.data_root) then remove_all uc.data_root ∷ [] else []

  abbrev pub compose_removals : List Call
  compose_removals =
      if is_empty uc.compose_file
      then []
      else remove (dir uc.compose_file) ∷ remove uc.compose_file ∷ []

  remove_data-Comes :
      (h : Host)
      → Comes h
          (remove_data uc)
          (λ _ h'. (h'.calls ≡ data_removals ++ h.calls) × (h'.world ≡ h.world))
          (λ t h'. h'.world ≡ h.world)
  remove_data-Comes h =
      comes-when _ _ _
        (λ t.
          comes-bind (λ _ h'. h' ≡ asked (remove_all uc.data_root) h) (λ _ h'. h'.world ≡ h.world) _
            _ (comes-wrapped _ _ (comes-act _ (λ out e. refl) (λ e out x. refl)))
            (λ _ h' e. comes-return _ (rw (e, t) (refl, refl))) (λ t' h' e. e))
        (λ t. comes-return _ (rw t refl, refl))

  removed_file-Comes :
      (h h' : Host) (outcome : Outcome Text)
      → h' ≡ asked (remove uc.compose_file) h
      → Comes h'
          (removed_file outcome)
          (λ _ h''. h'' ≡ asked (remove uc.compose_file) h)
          (λ t h''. h''.world ≡ h.world)
  removed_file-Comes h h' (done out) e = comes-return _ e
  removed_file-Comes h h' (fails t) e =
      comes-when _ _ _ (λ _. comes-return _ e) (λ _. comes-raise _ (ap (λ x. x.world) e))

  either :
      (h' before : Host) (c : Call) (o : Outcome Text)
      → Meets (λ _ x. x ≡ asked c before) (λ _ x. x ≡ asked c before) (o, h')
      → h' ≡ asked c before
  either h' before c (done out) m = m
  either h' before c (fails t) m = m

  remove_compose-Comes :
      (h : Host)
      → Comes h
          (remove_compose uc)
          (λ _ h'. (h'.calls ≡ compose_removals ++ h.calls) × (h'.world ≡ h.world))
          (λ t h'. h'.world ≡ h.world)
  remove_compose-Comes h =
      comes-when _ _ _ (λ t. comes-return _ (rw t refl, refl))
        (λ t.
          let file = remove uc.compose_file in
          let parent = remove (dir uc.compose_file) in
          comes-caught (λ _ x. x ≡ asked file h) (λ _ x. x ≡ asked file h) _ _
            (comes-act _ (λ out e. refl) (λ e out x. refl))
            (λ outcome h1 m1.
              comes-bind _ _ _ _ (removed_file-Comes h h1 outcome (either h1 h file outcome m1))
                (λ _ h2 e2.
                  comes-caught (λ _ x. x ≡ asked parent h2) (λ _ x. x ≡ asked parent h2) _ _
                    (comes-act _ (λ out e. refl) (λ e out x. refl))
                    (λ last h3 m3.
                      let both : h3 ≡ asked parent (asked file h) =
                        either h3 h2 parent last m3 ∙ ap (asked parent) e2 in
                      comes-return _ (rw t (ap (λ x. x.calls) both), ap (λ x. x.world) both)))
                (λ t' h2 e2. e2)))

  -- Done: the containers were down, the app has lost its client and its row, and then the data folder,
  -- unless it was to be kept, the compose file and its folder were removed, in this order.
  abbrev pub IsUninstalled : Host → Host → Type 0
  IsUninstalled h h' =
      (middle : Host) × IsDown uc h middle
      × IsForgotten uc.name h.world.db h'.world.db
      × (h'.calls ≡ compose_removals ++ (data_removals ++ middle.calls))

  -- Not done.
  abbrev pub IsRefused : Host → Host → Type 0
  IsRefused h h' =
      (NoRemoval h h'
        × ((uc.force ≡ true) ⊎ (((middle : Host) × IsDown uc h middle) ⊎ (h'.world ≡ h.world))))
      ⊎ ((middle : Host) × IsDown uc h middle × IsForgotten uc.name h.world.db h'.world.db)

  remove_files-Comes :
      (h middle last : Host) (down : Option Trouble)
      → IsTried uc h down middle
      → last.calls ≡ middle.calls
      → IsForgotten uc.name h.world.db last.world.db
      → Comes last (remove_files uc down) (λ _ h'. IsUninstalled h h') (λ t h'. IsRefused h h')
  remove_files-Comes h middle last (some t) (up, forced) same gone =
      let ((new, keeping, e), _) = IsTried-IsHarmless uc h middle (some t) (up, forced) in
      comes-raise _ (inl ((new, keeping, same ∙ e), inl forced))
  remove_files-Comes h middle last none down same gone =
      comes-bind _ _ _ _ (remove_data-Comes last)
        (λ _ h1 (e1, w1).
          comes-to _ _ _
            (λ _ h2 (e2, w2). (
              middle,
              down,
              subst (IsForgotten uc.name h.world.db) (sym (ap (λ w. w.db) (w2 ∙ w1))) gone,
              e2 ∙ ap (λ l. compose_removals ++ l) (e1 ∙ ap (λ l. data_removals ++ l) same),
            ))
            (λ t h2 w2. inr (
              middle,
              down,
              subst (IsForgotten uc.name h.world.db) (sym (ap (λ w. w.db) (w2 ∙ w1))) gone,
            ))
            (remove_compose-Comes h1))
        (λ t h1 w1.
          inr (middle, down, subst (IsForgotten uc.name h.world.db) (sym (ap (λ w. w.db) w1)) gone))

  stopped :
      (h middle last : Host) (down : Option Trouble)
      → IsTried uc h down middle
      → last.calls ≡ middle.calls
      → IsRefused h last
  stopped h middle last (some t) (up, forced) same =
      let ((new, keeping, e), _) = IsTried-IsHarmless uc h middle (some t) (up, forced) in
      inl ((new, keeping, same ∙ e), inl forced)
  stopped h middle last none down same =
      let ((new, keeping, e), _) = IsTried-IsHarmless uc h middle none down in
      inl ((new, keeping, same ∙ e), inr (inl (middle, down)))

  still_up : (h h' : Host) (t : Trouble) → IsUp uc h t h' → IsRefused h h'
  still_up h h' t (o, e, f, here) =
      let (kept, same) = IsFailed-IsHarmless uc h h' o t f in inl (kept, inr (inr same))

  pub uninstall-Comes :
      (h : Host) → Comes h (uninstall uc) (λ _ h'. IsUninstalled h h') (λ t h'. IsRefused h h')
  unfolding uninstall
  uninstall-Comes h =
      comes-when _ _ _ (λ _. comes-raise _ (inl (([], tt, refl), inr (inr refl))))
        (λ _.
          comes-bind _ _ _ _ (take_down-Comes uc h)
            (λ down middle tried.
              comes-bind _ _ _ _ (forget_app-Comes uc middle)
                (λ _ last (same, gone).
                  let world = (IsTried-IsHarmless uc h middle down tried).1 in
                  remove_files-Comes h middle last down tried same
                    (subst (λ w. IsForgotten uc.name w.db last.world.db) world gone))
                (λ t last same. stopped h middle last down tried same))
            (λ t h' (u, up). still_up h h' u up))
