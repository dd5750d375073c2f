-- ===== src/Apps/Install/Resolving.antt =====
-- Install of internal/apps/install.go completes and checks its context.
use nass.Common.{inr, inl, Bool-cases, ℕ, ◌≡◌, refl, sym, ap, ◌∙◌, Bool, Option, none, some, Text}
use nass.Db.{Db}
use nass.Db.Monad.{random_token}
use nass.Db.Ensures.{Ensures}
use nass.Host.{Host}
use nass.Host.Meets.{
  Untouched, Untouched-refl, Untouched-trans, Comes, comes-return, comes-raise, comes-when,
  comes-bind, comes-in_db,
}
use nass.Ports.{Selected, selected, refused, select_backend_port}
use nass.Users.{Bcrypt}
use nass.Apps.{Spec, InstallContext}
use nass.Apps.Install.{
  with_defaults, with_password, random_password, chosen_port, validate, pass, resolve_context,
}

random-ensures :
    (n : ℕ) (before : Db)
    → Ensures n (λ db. db ≡ before) random_token (λ _ db. db ≡ before) (λ db. db ≡ before)
unfolding random_token
random-ensures n before = record {
  at = λ w e p. elim (Bool-cases (w.fault w.calls)) [ inl t ↦ rw t (e, p) | inr t ↦ rw t (e, p) ];
}

random_password-Comes :
    (h : Host) → Comes h random_password (λ _ h'. Untouched h h') (λ _ h'. Untouched h h')
unfolding random_password
random_password-Comes h =
    comes-in_db _ (random-ensures h.world.now h.world.db) (λ a h' s e. (s, e)) (λ t h' s e. (s, e))

module _ (url_hostname : Text → Option Text) (bcrypt : Bcrypt)
    (render : Text → InstallContext → Option Text) (is_done port_available : ℕ → Bool)
    (spec : Spec) where
  -- The context is complete, passes the checks, and has the port that was chosen.
  abbrev pub IsResolved : InstallContext → InstallContext → Type 0
  IsResolved given ic =
      (validate url_hostname ic ≡ none)
      × (let asked_for = with_defaults spec given in
          select_backend_port is_done port_available asked_for.backend_port
            asked_for.backend_port_range asked_for.backend_port_explicit
          ≡ selected ic.backend_port)

  with_password-Comes :
      (h : Host) (ic : InstallContext)
      → Comes h
          (with_password ic)
          (λ full h'. Untouched h h' × (full.backend_port ≡ ic.backend_port))
          (λ t h'. Untouched h h')
  with_password-Comes h ic =
      comes-when _ _ _
        (λ t.
          comes-bind _ _ _ _ (random_password-Comes h) (λ pw h' u. comes-return _ (u, refl))
            (λ t h' u. u))
        (λ t. comes-return _ (Untouched-refl h, refl))

  pass-Comes :
      (h : Host) (ic : InstallContext) (o : Option Text)
      → validate url_hostname ic ≡ o
      → Comes h
          (pass url_hostname o)
          (λ _ h'. Untouched h h' × (validate url_hostname ic ≡ none))
          (λ t h'. Untouched h h')
  pass-Comes h ic none e = comes-return _ (Untouched-refl h, e)
  pass-Comes h ic (some message) e = comes-raise _ (Untouched-refl h)

  chosen_port-Comes :
      (h : Host) (s : Selected)
      → Comes h
          (chosen_port s)
          (λ port h'. Untouched h h' × (s ≡ selected port))
          (λ t h'. Untouched h h')
  chosen_port-Comes h (selected port) = comes-return _ (Untouched-refl h, refl)
  chosen_port-Comes h (refused e) = comes-raise _ (Untouched-refl h)

  pub resolve_context-Comes :
      (h : Host) (given : InstallContext)
      → Comes h
          (resolve_context url_hostname bcrypt render is_done port_available spec given)
          (λ ic h'. Untouched h h' × IsResolved given ic)
          (λ t h'. Untouched h h')
  unfolding resolve_context
  resolve_context-Comes h given =
      comes-bind _ _ _ _ (chosen_port-Comes h _)
        (λ port h1 (u1, chosen).
          comes-bind _ _ _ _ (with_password-Comes h1 _)
            (λ full h2 (u2, same).
              comes-bind _ _ _ _ (pass-Comes h2 full _ refl)
                (λ _ h3 (u3, valid). comes-return _ (
                  Untouched-trans h h1 h3 u1 (Untouched-trans h1 h2 h3 u2 u3),
                  (valid, chosen ∙ ap selected (sym same)),
                ))
                (λ t h3 u3. Untouched-trans h h1 h3 u1 (Untouched-trans h1 h2 h3 u2 u3)))
            (λ t h2 u2. Untouched-trans h h1 h2 u1 u2))
        (λ t h1 u1. u1)
