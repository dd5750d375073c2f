-- ===== src/Proxy/Cookies.antt =====
-- stripCookie of internal/proxy/reverse.go: the session cookie is kept from the apps.
pub mod Parts
pub mod Stripped
mod Tests
use nass.Common.{
  join, ℕ, Bool, true, false, not, List, [], ◌∷◌, ◌++◌, Text, text, split, trim_space, is_empty,
  ◌==◌, nat_eq_test, text_eq_test, keep_if, if◌then◌else◌,
}

-- What strings.Cut gives before the first `=`, or all.
unfoldable pub before_equals : Text → Text
before_equals [] = []
before_equals (c ∷ s) = let rest = before_equals s in if c == b'=' then [] else c ∷ rest

abbrev pub is_named : Text → Text → Bool
is_named name part = before_equals (trim_space part) == name

-- One Cookie header without the parts of that name.
unfoldable pub strip_value : Text → Text → Text
strip_value name value =
    trim_space (join b';' (keep_if (λ p. not (is_named name p)) (split b';' value)))

-- The Cookie headers that are left: those that are not empty.
unfoldable pub strip_cookie : Text → List Text → List Text
strip_cookie name [] = []
strip_cookie name (v ∷ values) =
    let rest = strip_cookie name values in
    if is_empty (strip_value name v) then rest else strip_value name v ∷ rest

abbrev pub session_cookie_name : Text
session_cookie_name = text "nass_session"
