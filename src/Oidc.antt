-- ===== src/Oidc.antt =====
-- internal/auth/oidc: the storage of the OIDC provider. The provider itself is the zitadel library,
-- whose interfaces this code implements.
pub mod Requests
pub mod Tokens
pub mod Storage
pub mod Userinfo
pub mod Login
pub mod Clients
mod Tests
use nass.Common.{ℕ, ◌*◌, ◌/◌, Bool, leb}

abbrev pub second : ℕ
second = 1000000000

-- `expires_at > CURRENT_TIMESTAMP`, which compares texts: the right one has whole seconds only, and
-- the left one is longer, so in the same second it is the greater.
abbrev pub is_after_now : ℕ → ℕ → Bool
is_after_now now expires = leb (now / second) (expires / second)

-- CURRENT_TIMESTAMP
abbrev pub current_timestamp : ℕ → ℕ
current_timestamp now = now / second * second
