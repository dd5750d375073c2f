-- ===== src/Orchestrator/Commands.antt =====
-- What a call of the orchestrator runs.
use nass.Common.{◌≡◌, refl, List, [], ◌∷◌, Text, ◌⊎◌, inl, inr}
use nass.Host.{Host, Reply, fine, broken, Failure, Call, run_command, Trouble, asked}
use nass.Host.Meets.{Comes}
use nass.Orchestrator.{
  Orchestrator, Resolved, at_path, refused, resolve, argv_of, run_reply, run_with, run_at, run,
}

-- The one command of a call, where the path is resolved and Docker Compose is set.
abbrev pub IsCommand : Orchestrator → Text → List Text → Call → Type 0
IsCommand o compose_file args c =
    (path command : Text) × (rest : List Text) × (resolve o compose_file ≡ at_path path)
    × (o.docker_compose ≡ command ∷ rest)
    × (c ≡ run_command command (argv_of rest path args))

-- Nothing was run, or one command, whose reply decides.
module _ (o : Orchestrator) (compose_file : Text) (args : List Text) (h : Host) where
  abbrev pub IsRun : Text → Host → Type 0
  IsRun out h' =
      (c : Call) × IsCommand o compose_file args c
      × (h.reply h.made c ≡ fine out)
      × (h' ≡ asked c h)

  abbrev pub IsFailed : Trouble → Host → Type 0
  IsFailed t h' =
      (h' ≡ h)
      ⊎ ((c : Call) × (e : Failure) × (out : Text) × IsCommand o compose_file args c
          × (h.reply h.made c ≡ broken e out)
          × (h' ≡ asked c h))

  run_reply-Comes :
      (path command : Text) (rest : List Text) (r : Reply)
      → resolve o compose_file ≡ at_path path
      → o.docker_compose ≡ command ∷ rest
      → let c = run_command command (argv_of rest path args) in
        h.reply h.made c ≡ r
        → Comes h (λ _. run_reply command (argv_of rest path args) r (asked c h)) IsRun IsFailed
  run_reply-Comes path command rest (fine out) p d e = record {
    at = (run_command command (argv_of rest path args), (path, command, rest, p, d, refl), e, refl);
  }
  run_reply-Comes path command rest (broken x out) p d e = record {
    at = inr (
      run_command command (argv_of rest path args),
      x,
      out,
      (path, command, rest, p, d, refl),
      e,
      refl,
    );
  }

  run_with-Comes :
      (path : Text) (argv : List Text)
      → resolve o compose_file ≡ at_path path
      → o.docker_compose ≡ argv
      → Comes h (run_with argv path args) IsRun IsFailed
  run_with-Comes path [] p d = record { at = inl refl }
  run_with-Comes path (command ∷ rest) p d = record {
    at = (run_reply-Comes path command rest _ p d refl).at;
  }

  run_at-Comes :
      (r : Resolved) → resolve o compose_file ≡ r → Comes h (run_at o r args) IsRun IsFailed
  run_at-Comes (refused message) p = record { at = inl refl }
  run_at-Comes (at_path path) p = run_with-Comes path o.docker_compose p refl

  -- A call of the orchestrator runs the command of Docker Compose on the resolved file with its
  -- arguments, once, and reports what the system answers; where it cannot, it runs nothing.
  pub run-Comes : Comes h (run o compose_file args) IsRun IsFailed
  unfolding run
  run-Comes = run_at-Comes (resolve o compose_file) refl
