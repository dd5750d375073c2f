-- ===== src/Ports/Tests.antt =====
-- The choice of a port at concrete inputs.
use nass.Common.{split, ℕ, ◌≡◌, refl, Bool, false, none, some, text, ltb, arith}
use nass.Common.{parse_int, parse_digits, trim_space, trim_left, trim_right}
use nass.Ports.{selected, select_backend_port, scan, parse_port_range}
use nass.Ports.Choice.{IsPortRange, IsChosen, select_backend_port-IsChosen}

-- Only 20002 and above are available.
abbrev from_20002 : ℕ → Bool
from_20002 port = ltb 20001 port

abbrev never : ℕ → Bool
never port = false

code : Unit {0}
unfolding select_backend_port scan parse_port_range split parse_int parse_digits trim_space
    trim_left trim_right
code = tt

third_port : select_backend_port never from_20002 8080 (text "20000 - 20005") false ≡ selected 20002
unfolding code
third_port = refl

bad_range : parse_port_range (text "20000-19999") ≡ none
unfolding code
bad_range = refl

parsed : parse_port_range (text "20000-20005") ≡ some (20000, 20005)
unfolding code
parsed = refl

select_backend_port-IsChosen_example :
    IsPortRange 20000 20005
    × IsChosen never from_20002 8080 false 20000 20005
        (select_backend_port never from_20002 8080 (text "20000-20005") false)
select_backend_port-IsChosen_example =
    select_backend_port-IsChosen never from_20002 8080 (text "20000-20005") false 20000 20005
      (ground arith) (ground arith) parsed
