-- ===== src/Portal/Navigation.antt =====
-- safeNext of internal/portal/portal.go: where a login may lead. url.Parse is a parameter.
pub mod Safety
use nass.Common.{
  has_suffix, has_prefix, ℕ, ◌≡◌, Bool, true, false, not, ◌&&◌, ◌||◌, Option, none, some, List, [],
  ◌∷◌, ◌++◌, Text, text, is_empty, ◌==◌, nat_eq_test, text_eq_test, any_of, if◌then◌else◌, to_lower,
}

-- What the code reads of a *url.URL.
pub record ParsedUrl : Type 0 where
  pub scheme : Text
  pub host : Text
  pub hostname : Text
  pub path : Text

abbrev pub has_backslash : Text → Bool
has_backslash s = any_of (λ c. c == 92) s

abbrev pub is_path_on_host : Text → ParsedUrl → Bool
is_path_on_host raw u = has_prefix u.path (text "/") && not (has_prefix raw (text "//"))

module _ (base_host : Text) (https : Bool) where
  abbrev pub is_wrong_scheme : Text → Bool
  is_wrong_scheme scheme = not (scheme == text "https") && (not (scheme == text "http") || https)

  abbrev pub is_own_host : Text → Bool
  is_own_host hostname =
      not (is_empty hostname)
      && (hostname == to_lower base_host || has_suffix hostname (b'.' ∷ to_lower base_host))

  abbrev pub safe_url : Text → Option ParsedUrl → Text
  safe_url raw none = text "/"
  safe_url raw (some u) =
      if is_empty u.scheme && is_empty u.host
      then (if is_path_on_host raw u then raw else text "/")
      else if is_wrong_scheme u.scheme
      then text "/"
      else if is_own_host (to_lower u.hostname)
      then raw
      else text "/"

  unfoldable pub safe_next : (Text → Option ParsedUrl) → Text → Text
  safe_next url_parse raw =
      if is_empty raw || has_backslash raw then text "/" else safe_url raw (url_parse raw)
