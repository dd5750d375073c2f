-- ===== src/Cli/Uninstalling.antt =====
-- What `app uninstall` of internal/cli/install.go may remove.
use nass.Common.{
  ◌≡◌, refl, sym, ap, ap₂, ◌∙◌, true, false, Option, none, some, [], ◌∷◌, ◌++◌, Text, text,
  is_empty, join_paths, inl, inr, ◌⊎◌, arith, Bool-cases,
}
use nass.Host.{Host, fine, Call, stat, Outcome, done, fails, asked}
use nass.Host.Meets.{
  Comes, Meets, SameHost, comes-return, comes-raise, comes-when, comes-bind, comes-caught,
  comes-act, comes-to,
}
use nass.Apps.Uninstall.{AppPaths}
use nass.Apps.Uninstall.Down.{IsKeeping, NoRemoval}
use nass.Apps.Uninstall.Removal.{IsUninstalled, IsRefused, uninstall-Comes}
use nass.Apps.Uninstall.Paths.{AreFoundPaths, load_app_paths-Comes}
use nass.Config.{Config}
use nass.Cli.{
  uninstall_context, UninstallFlags, exists_with, compose_or_candidate, data_or_default,
  resolve_uninstall_paths, uninstall_found, uninstall_app,
}

-- The files that an installation leaves where its flags are not given.
abbrev pub usual_compose_file : Config → Text → Text
usual_compose_file cfg name =
    join_paths (cfg.orchestrator.compose_root ∷ name ∷ text "docker-compose.yaml" ∷ [])

abbrev pub usual_data_root : Config → Text → Text
usual_data_root cfg name = join_paths (cfg.orchestrator.data_root ∷ name ∷ [])

-- The world is as it was, and the disk was only looked at.
abbrev pub OnlyLooks : Host → Host → Type 0
OnlyLooks h h' = NoRemoval h h' × (h'.world.db ≡ h.world.db)

module _ (cfg : Config) (name : Text) (recorded : AppPaths) (h : Host) where
  -- The compose file is the recorded one, or the usual one where none is recorded and it is there.
  abbrev pub IsOwnFile : Text → Type 0
  IsOwnFile compose_file =
      (compose_file ≡ recorded.compose_file)
      ⊎ ((out : Text) × (is_empty recorded.compose_file ≡ true)
          × (compose_file ≡ usual_compose_file cfg name)
          × (h.reply h.made (stat (usual_compose_file cfg name)) ≡ fine out))

  -- The data folder is the recorded one, or the usual one where none is recorded but a compose file is.
  abbrev pub IsOwnData : AppPaths → Type 0
  IsOwnData paths =
      (paths.data_root ≡ recorded.data_root)
      ⊎ ((is_empty recorded.data_root ≡ true)
          × (is_empty paths.compose_file ≡ false)
          × (paths.data_root ≡ usual_data_root cfg name))

  data_or_default-IsOwnData :
      (compose_file : Text)
      → IsOwnData (record {
        compose_file = compose_file;
        data_root = data_or_default cfg name compose_file recorded.data_root;
      })
  data_or_default-IsOwnData compose_file = elim (Bool-cases (is_empty recorded.data_root)) [
    | inr f ↦ inl (rw f refl)
    | inl t ↦ elim (Bool-cases (is_empty compose_file)) [
      | inl u ↦ inl (rw t (rw u refl))
      | inr g ↦ elim (Bool-cases (is_empty cfg.orchestrator.data_root)) [
        | inl u ↦ inl (rw t (rw g (rw u refl)))
        | inr k ↦ inr (t, g, rw t (rw g (rw k refl)))
      ]
    ]
  ]

  looked : (h' : Host) (c : Call) → IsKeeping c → h' ≡ asked c h → OnlyLooks h h'
  looked h' c keeping e = ((c ∷ [], (keeping, tt), ap (λ x. x.calls) e), ap (λ x. x.world.db) e)

  exists_with-IsOwnFile :
      (h' : Host) (found : Outcome Text)
      → is_empty recorded.compose_file ≡ true
      → Meets
          (λ out x.
            (h.reply h.made (stat (usual_compose_file cfg name)) ≡ fine out)
            × (x ≡ asked (stat (usual_compose_file cfg name)) h))
          (λ t x. x ≡ asked (stat (usual_compose_file cfg name)) h)
          (found, h')
      → OnlyLooks h h'
        × IsOwnFile (exists_with (usual_compose_file cfg name) recorded.compose_file found)
  exists_with-IsOwnFile h' (done out) none_there (ok, e) =
      (looked h' (stat (usual_compose_file cfg name)) tt e, inr (out, none_there, refl, ok))
  exists_with-IsOwnFile h' (fails t) none_there e =
      (looked h' (stat (usual_compose_file cfg name)) tt e, inl refl)

  compose_or_candidate-Comes :
      Comes h
        (compose_or_candidate cfg name recorded.compose_file)
        (λ file h'. OnlyLooks h h' × IsOwnFile file)
        (λ t h'. ⊥)
  compose_or_candidate-Comes =
      comes-when _ _ _
        (λ t.
          comes-caught
            (λ out x.
              (h.reply h.made (stat (usual_compose_file cfg name)) ≡ fine out)
              × (x ≡ asked (stat (usual_compose_file cfg name)) h))
            (λ t x. x ≡ asked (stat (usual_compose_file cfg name)) h) _ _
            (comes-act _ (λ out e. (e, refl)) (λ e out x. refl))
            (λ found h' m. comes-return _ (exists_with-IsOwnFile h' found (ground (arith, t)) m)))
        (λ t. comes-return _ ((([], tt, refl), refl), inl refl))

  resolve_uninstall_paths-Comes :
      Comes h
        (resolve_uninstall_paths cfg name recorded)
        (λ paths h'. OnlyLooks h h' × IsOwnFile paths.compose_file × IsOwnData paths)
        (λ t h'. ⊥)
  unfolding resolve_uninstall_paths
  resolve_uninstall_paths-Comes =
      comes-bind _ _ _ _ compose_or_candidate-Comes
        (λ file h' (looks, own). comes-return _ (looks, own, data_or_default-IsOwnData file))
        (λ t h' p. absurd p)

module _ (cfg : Config) (name : Text) (f : UninstallFlags) (h : Host) where
  -- The command went on to Uninstall, from a state in which the disk was only looked at, with paths that
  -- are recorded or those of an installation that is there.
  abbrev pub IsHandedOn : (UninstallFlags → AppPaths → Host → Type 0) → Type 0
  IsHandedOn P =
      (recorded : AppPaths) × (paths : AppPaths) × (middle : Host) × (f.yes ≡ true)
      × AreFoundPaths name h.world.db (some recorded)
      × OnlyLooks h middle
      × IsOwnFile cfg name recorded h paths.compose_file
      × IsOwnData cfg name recorded h paths
      × P f paths middle

  same_file :
      (recorded : AppPaths) (h1 : Host) (file : Text)
      → SameHost h h1
      → IsOwnFile cfg name recorded h1 file
      → IsOwnFile cfg name recorded h file
  same_file recorded h1 file (made, calls, reply, now) (inl e) = inl e
  same_file recorded h1 file (made, calls, reply, now) (inr (out, none_there, e, ok)) = inr (
    out,
    none_there,
    e,
    sym (ap₂ (λ r n. r n (stat (usual_compose_file cfg name))) reply made) ∙ ok,
  )

  same_looks :
      (h1 h' : Host) → SameHost h h1 → h1.world.db ≡ h.world.db → OnlyLooks h1 h' → OnlyLooks h h'
  same_looks h1 h' (made, calls, reply, now) e ((new, keeping, after), db) =
      ((new, keeping, after ∙ ap (λ l. new ++ l) calls), db ∙ e)

  abbrev pub IsDone : Host → Type 0
  IsDone h' =
      IsHandedOn (λ g paths middle. IsUninstalled (uninstall_context cfg name g paths) middle h')

  abbrev pub IsAborted : Host → Type 0
  IsAborted h' =
      OnlyLooks h h'
      ⊎ IsHandedOn (λ g paths middle. IsRefused (uninstall_context cfg name g paths) middle h')

  uninstall_found-Comes :
      (h1 : Host) (found : Option AppPaths)
      → SameHost h h1
      → h1.world.db ≡ h.world.db
      → AreFoundPaths name h.world.db found
      → Comes h1 (uninstall_found cfg name f found) (λ _ h'. IsDone h') (λ t h'. IsAborted h')
  uninstall_found-Comes h1 none same e there =
      comes-raise _ (inl (same_looks h1 h1 same e (([], tt, refl), refl)))
  uninstall_found-Comes h1 (some recorded) same e there =
      comes-bind _ _ _ _ (resolve_uninstall_paths-Comes cfg name recorded h1)
        (λ paths middle (looks, file, folder).
          let only = same_looks h1 middle same e looks in
          comes-when _ _ _ (λ t. comes-raise _ (inl only))
            (λ t.
              let yes : f.yes ≡ true = ground (arith, t) in
              let own = same_file recorded h1 paths.compose_file same file in
              comes-to _ _ _
                (λ _ h' removed. (recorded, paths, middle, yes, there, only, own, folder, removed))
                (λ _ h' refused.
                  inr (recorded, paths, middle, yes, there, only, own, folder, refused))
                (uninstall-Comes (uninstall_context cfg name f paths) middle)))
        (λ t h' p. absurd p)

  -- `app uninstall`, with every answer that the database and the system may give. Without --yes, and where
  -- the app is not in the table, it reports an error and neither the database nor the disk is changed.
  -- Else Uninstall is called, with the recorded paths: where no compose file is recorded, that of an
  -- installation takes its place only where it exists, and where no data folder is recorded, the usual one
  -- only where there is a compose file.
  pub uninstall_app-Comes :
      Comes h (uninstall_app cfg name f) (λ _ h'. IsDone h') (λ t h'. IsAborted h')
  unfolding uninstall_app
  uninstall_app-Comes =
      comes-bind _ _ _ _ (load_app_paths-Comes h name)
        (λ found h1 (same, e, there). uninstall_found-Comes h1 found same e there)
        (λ t h' (same, e). inl (same_looks h' h' same e (([], tt, refl), refl)))
