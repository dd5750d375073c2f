-- ===== src/Proxy.antt =====
-- internal/proxy: the front door. A host is mapped to a handler, which is either one of the fixed ones
-- of nass or built from the settings of an app.
pub mod Manager
pub mod Cookies
use nass.Common.{
  ℕ, zero, suc, ◌+◌, ◌≡◌, Bool, true, false, not, ◌&&◌, ◌||◌, ◌⊎◌, inl, inr, Option, none, some,
  List, [], ◌∷◌, ◌++◌, map, Text, text, ltb, ◌==◌, is_empty, text_eq_test, nat_eq_test, any_of,
  keep_if, if◌then◌else◌, Dict, lookup, insert, delete, keys, to_lower, is_some, or_else, get_or,
}
use mathlib.Core.Option

-- url.Parse, of package net/url; `none` is an error.
pub record Url : Type 0 where
  pub scheme : Text
  pub host : Text

-- `timeout` is ResponseHeaderTimeout in seconds, 0 for none.
pub record BackendOptions : Type 0 where
  pub backend : Url
  pub preserve_host : Bool
  pub timeout : ℕ

-- An http.Handler: that of NewReverseProxy, one that a gate wraps, or another, by its name.
pub data Handler : Type 0 where
  reverse_proxy : BackendOptions → Handler
  gated : Handler → Handler
  other : Text → Handler

pub record Server : Type 0 where
  pub routes : Dict Handler
  pub fallback : Handler

abbrev pub not_found : Handler
not_found = other (text "notFound")

abbrev pub new_server : Server
new_server = record { routes = []; fallback = not_found }

abbrev pub set_fallback : Handler → Server → Server
set_fallback h s = record s { fallback = h }

unfoldable pub add_route : Text → Handler → Server → Server
add_route host handler s = record s { routes = insert (to_lower host) handler s.routes }

unfoldable pub remove_route : Text → Server → Server × Bool
remove_route host s = (
  record s { routes = delete (to_lower host) s.routes },
  is_some (lookup (to_lower host) s.routes),
)

abbrev pub hosts : Server → List Text
hosts s = keys s.routes

-- The headers of a request, by their canonical names.
pub record Request : Type 0 where
  pub host : Text
  pub headers : Dict Text

abbrev pub identity_headers : List Text
identity_headers =
    text "Remote-User" ∷ text "Remote-Email" ∷ text "Remote-Name" ∷ text "Remote-Groups" ∷ []

unfoldable pub drop_headers : List Text → Dict Text → Dict Text
drop_headers [] headers = headers
drop_headers (name ∷ names) headers = drop_headers names (delete name headers)

-- strings.LastIndexByte
unfoldable pub last_index : ℕ → Text → Option ℕ
last_index c [] = none
last_index c (d ∷ s) = or_else (Option.map suc (last_index c s)) (if d == c then some 0 else none)

unfoldable pub take : ℕ → Text → Text
take n [] = []
take zero (c ∷ s) = []
take (suc n) (c ∷ s) = c ∷ take n s

abbrev pub starts_with_bracket : Text → Bool
starts_with_bracket [] = false
starts_with_bracket (c ∷ s) = c == b'['

abbrev pub cut_after_bracket : Text → ℕ → Option ℕ → Text
cut_after_bracket host i none = host
cut_after_bracket host i (some j) = if ltb j i then take i host else host

abbrev pub cut_port : Text → Option ℕ → Text
cut_port host none = host
cut_port host (some i) =
    if starts_with_bracket host
    then cut_after_bracket host i (last_index b']' host)
    else take i host

unfoldable pub strip_port : Text → Text
strip_port host = cut_port host (last_index b':' host)

-- ServeHTTP: the request as it is handed on, and the handler that gets it.
unfoldable pub serve_http : Request → Server → Request × Handler
serve_http r s = (
  record r { headers = drop_headers identity_headers r.headers },
  get_or s.fallback (lookup (to_lower (strip_port r.host)) s.routes),
)
