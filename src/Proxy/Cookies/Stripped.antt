-- ===== src/Proxy/Cookies/Stripped.antt =====
-- After stripCookie of internal/proxy/reverse.go no header names the cookie.
use nass.Common.{List, Text, nat_eq_test, text_eq_test}
use nass.Db.Rows.{NoRow}
use nass.Proxy.Cookies.{is_named}

-- A separator that is no space, and a name that is not empty.
module _ (name : Text) where
  abbrev pub IsClean : List Text → Type 0
  IsClean parts = NoRow (is_named name) parts
