-- ===== src/Proxy/Cookies/Tests.antt =====
-- stripCookie at concrete headers.
use nass.Common.{
  join, ◌≡◌, refl, List, [], ◌∷◌, Text, text, split, trim_space, trim_left, trim_right, text_eq,
}
use nass.Proxy.Cookies.{before_equals, strip_value, strip_cookie, session_cookie_name}

code : Unit {0}
unfolding split trim_space trim_left trim_right text_eq join before_equals strip_value strip_cookie
code = tt

abbrev headers : List Text
headers = text "a=1; nass_session=x;b=2" ∷ text " nass_session=y" ∷ []

one_is_left : strip_cookie session_cookie_name headers ≡ text "a=1;b=2" ∷ []
unfolding code
one_is_left = refl
