-- ===== src/Apps/Install/Writing.antt =====
-- Install of internal/apps/install.go writes the compose file and saves the settings.
use nass.Common.{
  All, ◌⊎◌, inr, inl, ℕ, ◌≡◌, refl, ap, ◌∙◌, Bool, Option, none, some, List, [], ◌∷◌, ◌++◌, Text,
  dir,
}
use nass.Db.{Db, AppSettings}
use nass.Db.Ensures.{Ensures, ensures-now, ensures-exec_last}
use nass.Host.{Call, run_command, Host, make_dir, write_file, asked}
use nass.Host.Meets.{Comes, comes-raise, comes-wrapped, comes-bind, comes-in_db, comes-act}
use nass.Users.{Bcrypt}
use nass.Proxy.Manager.{upsert_settings, save_settings}
use nass.Apps.{Spec, InstallContext}
use nass.Apps.Install.{settings_of, written, render_compose, write_app}

save_settings-ensures :
    (n : ℕ) (name : Text) (s : AppSettings) (before : Db)
    → Ensures n
        (λ db. db ≡ before)
        (save_settings name s)
        (λ _ db. db ≡ upsert_settings n name s before)
        (λ db. db ≡ before)
unfolding save_settings
save_settings-ensures n name s before =
    ensures-now _ (ensures-exec_last _ (λ db p. ap (upsert_settings n name s) p) (λ db p. p))

-- Only files were asked for.
abbrev pub IsFileCall : Call → Type 0
IsFileCall (run_command command args) = ⊥
IsFileCall c = Unit {0}

abbrev pub NoCommand : Host → Host → Type 0
NoCommand h h' =
    (new : List Call) × All IsFileCall new
    × (h'.calls ≡ new ++ h.calls)
    × (h'.world.db ≡ h.world.db)

module _ (url_hostname : Text → Option Text) (bcrypt : Bcrypt)
    (render : Text → InstallContext → Option Text) (is_done port_available : ℕ → Bool)
    (spec : Spec) where
  -- The compose file is written, the data folder is there, and the settings are saved.
  abbrev pub IsWritten : InstallContext → Host → Host → Type 0
  IsWritten ic h h' =
      (contents : Text) × (render spec.compose_template ic ≡ some contents)
      × (h'.calls
          ≡ make_dir ic.data_root
            ∷ write_file ic.compose_file contents
            ∷ make_dir (dir ic.compose_file)
            ∷ h.calls)
      × (h'.reply ≡ h.reply)
      × (h'.world.db ≡ upsert_settings h.world.now ic.name (settings_of spec ic) h.world.db)

  written-Comes :
      (h : Host) (ic : InstallContext) (o : Option Text)
      → Comes h
          (written url_hostname bcrypt render is_done port_available ic o)
          (λ _ h'.
            (contents : Text) × (o ≡ some contents)
            × (h' ≡ asked (write_file ic.compose_file contents) h))
          (λ t h'.
            (h' ≡ h) ⊎ ((contents : Text) × (h' ≡ asked (write_file ic.compose_file contents) h)))
  written-Comes h ic none = comes-raise _ (inl refl)
  written-Comes h ic (some contents) =
      comes-wrapped _ _
        (comes-act _ (λ out e. (contents, refl, refl)) (λ e out x. inr (contents, refl)))

  written_none :
      (h : Host) (ic : InstallContext) (first : Call) (h1 h2 : Host)
      → IsFileCall first
      → h1 ≡ asked first h
      → (h2 ≡ h1) ⊎ ((contents : Text) × (h2 ≡ asked (write_file ic.compose_file contents) h1))
      → NoCommand h h2
  written_none h ic first h1 h2 f e1 (inl e) =
      (first ∷ [], (f, tt), ap (λ x. x.calls) (e ∙ e1), ap (λ x. x.world.db) (e ∙ e1))
  written_none h ic first h1 h2 f e1 (inr (contents, e)) =
      let file = write_file ic.compose_file contents in
      let both : h2 ≡ asked file (asked first h) = e ∙ ap (asked file) e1 in
      (file ∷ first ∷ [], (tt, (f, tt)), ap (λ x. x.calls) both, ap (λ x. x.world.db) both)

  pub write_app-Comes :
      (h : Host) (ic : InstallContext)
      → Comes h
          (write_app url_hostname bcrypt render is_done port_available spec ic)
          (λ _ h'. IsWritten ic h h')
          (λ t h'. NoCommand h h')
  unfolding write_app render_compose
  write_app-Comes h ic =
      let parent = make_dir (dir ic.compose_file) in
      comes-bind (λ _ h1. h1 ≡ asked parent h) (λ _ h1. h1 ≡ asked parent h) _ _
        (comes-wrapped _ _ (comes-act _ (λ out e. refl) (λ e out x. refl)))
        (λ _ h1 e1.
          comes-bind _ _ _ _ (written-Comes h1 ic _)
            (λ _ h2 (contents, rendered, e2).
              let file = write_file ic.compose_file contents in
              let folder = make_dir ic.data_root in
              let so_far : h2 ≡ asked file (asked parent h) = e2 ∙ ap (asked file) e1 in
              comes-bind (λ _ h3. h3 ≡ asked folder h2) (λ _ h3. h3 ≡ asked folder h2) _ _
                (comes-wrapped _ _ (comes-act _ (λ out e. refl) (λ e out x. refl)))
                (λ _ h3 e3.
                  let all_three : h3 ≡ asked folder (asked file (asked parent h)) =
                    e3 ∙ ap (asked folder) so_far in
                  comes-wrapped _ _ (
                    comes-in_db _
                      (save_settings-ensures h3.world.now ic.name (settings_of spec ic) h3.world.db)
                      (λ _ h4 s db. (
                        contents,
                        rendered,
                        s.1 ∙ ap (λ x. x.calls) all_three,
                        s.2 ∙ ap (λ x. x.reply) all_three,
                        db
                            ∙ ap
                                (λ x.
                                  upsert_settings x.world.now ic.name (settings_of spec ic)
                                    x.world.db)
                                all_three,
                      ))
                      (λ t h4 s db. (
                        folder ∷ file ∷ parent ∷ [],
                        (tt, (tt, (tt, tt))),
                        s.1 ∙ ap (λ x. x.calls) all_three,
                        db ∙ ap (λ x. x.world.db) all_three,
                      ))))
                (λ t h3 e3.
                  let all_three : h3 ≡ asked folder (asked file (asked parent h)) =
                    e3 ∙ ap (asked folder) so_far in
                  (
                    folder ∷ file ∷ parent ∷ [],
                    (tt, (tt, (tt, tt))),
                    ap (λ x. x.calls) all_three,
                    ap (λ x. x.world.db) all_three,
                  )))
            (λ t h2 e. written_none h ic parent h1 h2 tt e1 e))
        (λ t h1 e1. (parent ∷ [], (tt, tt), ap (λ x. x.calls) e1, ap (λ x. x.world.db) e1))
