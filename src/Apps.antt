-- ===== src/Apps.antt =====
-- internal/apps/app.go: the contract of an app, and the registry of the apps.
pub mod Install
pub mod Uninstall
pub mod Registry
pub mod Waiting
pub mod Qbittorrent
pub mod Jellyfin
mod Tests
use nass.Common.{
  ℕ, Bool, true, false, Option, none, some, List, [], ◌∷◌, ◌++◌, Text, text, is_empty, ltb, ◌==◌,
  nat_eq_test, text_eq_test, if◌then◌else◌, Dict, lookup, insert, is_some,
}
use nass.Host.{H}
use nass.Orchestrator.{Orchestrator}

-- The context of an installation. Its Spec stands beside it, and the database is that of the host.
pub record InstallContext : Type 0 where
  pub name : Text
  pub subdomain : Text
  pub base_host : Text
  pub public_scheme : Text
  pub public_port : Text
  pub backend_port : ℕ
  pub backend_port_range : Text
  pub backend_port_explicit : Bool
  pub data_root : Text
  pub compose_file : Text
  pub admin_password : Text
  pub oidc_client_id : Text
  pub oidc_client_secret : Text
  pub oidc_issuer : Text
  pub orchestrator : Option Orchestrator

-- `none` is a function or a hook that is nil.
pub record Spec : Type 0 where
  pub name : Text
  pub display_name : Text
  pub description : Text
  pub icon : Text
  pub subdomain : Text
  pub backend_port : ℕ
  pub preserve_host : Bool
  pub needs_oidc : Bool
  pub oidc_gate : Bool
  pub oidc_redirect_uris : Option (InstallContext → List Text)
  pub compose_template : Text
  pub pre_up : Option (InstallContext → H (Unit {0}))
  pub post_up : Option (InstallContext → H (Unit {0}))

abbrev pub public_host : InstallContext → Text
public_host ic = ic.subdomain ++ (b'.' ∷ ic.base_host ++ ic.public_port)

abbrev pub public_url : InstallContext → Text
public_url ic = ic.public_scheme ++ (text "://" ++ public_host ic)

abbrev pub oidc_discovery_url : InstallContext → Text
oidc_discovery_url ic = ic.oidc_issuer ++ text "/.well-known/openid-configuration"

-- A panic of Register is `none`.
unfoldable pub register : Spec → Dict Spec → Option (Dict Spec)
register spec reg =
    if is_empty spec.name
    then none
    else if is_some (lookup spec.name reg)
    then none
    else some (insert spec.name spec reg)

unfoldable pub get : Text → Dict Spec → Option Spec
unfolding lookup
get name reg = lookup name reg

-- `s > t` on strings, by bytes.
unfoldable pub text_gt : Text → Text → Bool
text_gt [] t = false
text_gt (c ∷ s) [] = true
text_gt (c ∷ s) (d ∷ t) =
    let rest = text_gt s t in if ltb d c then true else if c == d then rest else false

-- The inner loop: `spec` moves down the part of `out` that is in order, which is given last first.
unfoldable pub sift : Spec → List Spec → List Spec
sift spec [] = spec ∷ []
sift spec (last ∷ before) =
    let rest = sift spec before in
    if text_gt last.name spec.name then last ∷ rest else spec ∷ last ∷ before

-- The outer loop.
unfoldable pub sift_all : List Spec → List Spec → List Spec
sift_all [] sorted = sorted
sift_all (spec ∷ out) sorted = sift_all out (sift spec sorted)

abbrev pub turned : List Spec → List Spec → List Spec
turned [] out = out
turned (s ∷ last_first) out = turned last_first (s ∷ out)

abbrev pub specs_of : Dict Spec → List Spec
specs_of [] = []
specs_of (e ∷ reg) = e.1 ∷ specs_of reg

-- The registry in the order in which `range` goes over it, which the language leaves open.
unfoldable pub all : Dict Spec → List Spec
all reg = turned (sift_all (specs_of reg) []) []
