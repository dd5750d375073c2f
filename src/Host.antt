-- ===== src/Host.antt =====
-- What the program does outside the database: files and the commands of Docker. The system is not part of
-- the program: each call of it is written down, and answered by a function of the world outside.
pub mod Meets
use nass.Common.{ℕ, suc, Bool, true, false, Option, none, some, List, [], ◌∷◌, Text, ◌≡◌, refl}
use nass.Db.Monad.{Error, Result, World, M}
use nass.Db.Monad

-- An error of the system; `not_exist` says whether errors.Is(err, fs.ErrNotExist).
pub record Failure : Type 0 where
  pub not_exist : Bool
  pub message : Text

-- The output of a command, or an error with the output up to it; of a file operation only
-- read_file has one, and `request` has the response.
pub data Reply : Type 0 where
  fine : Text → Reply
  broken : Failure → Text → Reply

pub data Call : Type 0 where
  make_dir remove remove_all stat read_file : Text → Call
  write_file : Text → Text → Call
  run_command : Text → List Text → Call
  request : Text → Text → Text → Call

-- An `error` of the program: fmt.Errorf with no cause, one of the database or of the system, or one
-- wrapped by `%w`.
pub data Trouble : Type 0 where
  says : Text → Trouble
  from_db : Error → Trouble
  from_system : Failure → Trouble
  within : Text → Trouble → Trouble

pub data Outcome (A : Type 0) : Type 0 where
  done : A → Outcome A
  fails : Trouble → Outcome A

-- `calls` are those that were made, newest first; `reply n c` is the answer to call n, where it is `c`.
pub record Host : Type 0 where
  pub world : World
  pub made : ℕ
  pub calls : List Call
  pub reply : ℕ → Call → Reply

abbrev pub H : Type 0 → Type 0
H A = Host → Outcome A × Host

abbrev pub return : {A : Type 0} → A → H A
return a h = (done a, h)

abbrev pub raise : {A : Type 0} → Trouble → H A
raise t h = (fails t, h)

abbrev pub bind_outcome : {A B : Type 0} → Outcome A → Host → (A → H B) → Outcome B × Host
bind_outcome (done a) h f = f a h
bind_outcome (fails t) h f = (fails t, h)

infixl 5 ◌>>=◌ ◌>>◌
unfoldable pub ◌>>=◌ : {A B : Type 0} (m : H A) (f : A → H B) → H B
◌>>=◌ m f h = bind_outcome (m h).0 (m h).1 f

abbrev pub ◌>>◌ : {A : Type 0} (first : H (Unit {0})) (next : H A) → H A
first >> next = first >>= λ finished. next

abbrev pub asked : Call → Host → Host
asked c h = record h { made = suc h.made; calls = c ∷ h.calls }

abbrev pub answered : Reply → Host → Outcome Text × Host
answered (fine out) h = (done out, h)
answered (broken e out) h = (fails (from_system e), h)

-- One call of the system.
unfoldable pub act : Call → H Text
act c h = answered (h.reply h.made c) (asked c h)

abbrev pub finished_in : {A : Type 0} → Host → Result A × World → Outcome A × Host
finished_in h (Monad.ok a, w) = (done a, record h { world = w })
finished_in h (Monad.err e, w) = (fails (from_db e), record h { world = w })

-- Code that talks to the database only.
unfoldable pub in_db : {A : Type 0} → M A → H A
in_db m h = finished_in h (m h.world)

abbrev pub wrap_outcome : {A : Type 0} → Text → Outcome A × Host → Outcome A × Host
wrap_outcome what (done a, h) = (done a, h)
wrap_outcome what (fails t, h) = (fails (within what t), h)

-- `if err != nil { return fmt.Errorf("…: %w", err) }`
unfoldable pub wrapped : {A : Type 0} → Text → H A → H A
wrapped what m h = wrap_outcome what (m h)

abbrev pub kept : {A : Type 0} → Outcome A × Host → Outcome (Outcome A) × Host
kept r = (done r.0, r.1)

-- A caller that looks at the error itself.
unfoldable pub caught : {A : Type 0} → H A → H (Outcome A)
caught m h = kept (m h)

-- `if` between computations.
unfoldable pub when : {A : Type 0} → Bool → H A → H A → H A
when true m k = m
when false m k = k
