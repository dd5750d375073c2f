-- ===== src/Config/Tests.antt =====
-- The configuration at concrete files.
use mathlib.Core.Option.{some-injective}
use mathlib.Core.Path.{subst}
use nass.Common.{
  ◌≡◌, refl, Option, some, [], Text, text, true, is_abs, has_prefix, dir, up_to_slash, clean,
  clean_parts, split, join, join_path, text_eq,
}
use nass.Host.{done, fails, Outcome}
use nass.Config.{Config, resolve_paths, validated, load}
use nass.Config.Loading.{Succeeds, IsUsable, load-IsUsable}

abbrev here : Option Text
here = some (text "/srv")

here-is_abs : (d : Text) → here ≡ some d → is_abs d ≡ true
unfolding has_prefix
here-is_abs d e = subst (λ p. is_abs p ≡ true) (some-injective (text "/srv") d e) refl

-- A file with a host and no more.
abbrev with_host : Text → Config → Option Config
with_host path c = some (record c { server = record c.server { base_host = text "example.org" } })

load-IsUsable_example :
    Succeeds (IsUsable (text "etc/nass.toml")) (load here with_host (text "etc/nass.toml"))
load-IsUsable_example = load-IsUsable here here-is_abs with_host (text "etc/nass.toml")

abbrev database : Outcome Config → Text
database (done c) = c.db_path
database (fails t) = []

abbrev issuer : Outcome Config → Text
issuer (done c) = c.oidc.issuer
issuer (fails t) = []

code : Unit {0}
unfolding load resolve_paths validated dir up_to_slash clean clean_parts split join join_path
    has_prefix text_eq
code = tt

beside_the_file : database (load here with_host (text "etc/nass.toml")) ≡ text "/srv/etc/nass.db"
unfolding code
beside_the_file = refl

derived_issuer :
    issuer (load here with_host (text "etc/nass.toml")) ≡ text "https://auth.example.org"
unfolding code
derived_issuer = refl
