-- ===== src/Ports.antt =====
-- internal/apps/ports.go: the choice of a local port. Whether a port is available and whether the
-- context is done are asked of the system, and parameters.
pub mod Choice
mod Tests
use nass.Common.{
  split, ℕ, zero, suc, ◌+◌, ◌-◌, Bool, true, false, not, ◌&&◌, ◌||◌, Option, none, some, List, [],
  ◌∷◌, Text, text, ltb, leb, ◌==◌, nat_eq_test, is_empty, trim_space, if◌then◌else◌, parse_int,
  Int64, nonnegative, negative,
}

pub data PortError : Type 0 where
  out_of_range invalid_range in_use cancelled no_free_port : PortError

pub data Selected : Type 0 where
  selected : ℕ → Selected
  refused : PortError → Selected

abbrev pub is_port_range : ℕ → ℕ → Bool
is_port_range start end =
    not (start == 0 || end == 0 || ltb 65535 start || ltb 65535 end || ltb end start)

abbrev pub range_of : Option Int64 → Option Int64 → Option (ℕ × ℕ)
range_of (some (nonnegative start)) (some (nonnegative end)) =
    if is_port_range start end then some (start, end) else none
range_of _ _ = none

abbrev pub range_of_parts : List Text → Option (ℕ × ℕ)
range_of_parts (a ∷ b ∷ []) = range_of (parse_int (trim_space a)) (parse_int (trim_space b))
range_of_parts _ = none

unfoldable pub parse_port_range : Text → Option (ℕ × ℕ)
parse_port_range raw = range_of_parts (split b'-' raw)

abbrev pub default_backend_port_range : Text
default_backend_port_range = text "20000-29999"

module _ (is_done : ℕ → Bool) (port_available : ℕ → Bool) where
  -- The loop over the ports from `port` on, `count` of them.
  unfoldable pub scan : ℕ → ℕ → ℕ → Selected
  scan preferred port zero = refused no_free_port
  scan preferred port (suc count) =
      let rest = scan preferred (suc port) count in
      if is_done port
      then refused cancelled
      else if port == preferred
      then rest
      else if port_available port
      then selected port
      else rest

  abbrev pub select_in : ℕ → Bool → Option (ℕ × ℕ) → Selected
  select_in preferred explicit none = refused invalid_range
  select_in preferred explicit (some (start, end)) =
      if port_available preferred
      then selected preferred
      else if explicit
      then refused in_use
      else scan preferred start (suc end - start)

  unfoldable pub select_backend_port : ℕ → Text → Bool → Selected
  select_backend_port preferred port_range explicit =
      if preferred == 0 || ltb 65535 preferred
      then refused out_of_range
      else select_in preferred explicit (
          parse_port_range (if is_empty port_range then default_backend_port_range else port_range))
