-- ===== src/Config/Loading.antt =====
-- What a loaded configuration of internal/config can be relied on for.
use nass.Common.{
  ◌≡◌, refl, Bool, true, false, Option, none, some, Text, is_empty, is_abs, if◌then◌else◌, dir,
  join_path-is_abs, abs_path, abs_path-is_abs, inl, inr, ◌⊎◌, arith, Bool-cases,
}
use nass.Host.{Trouble, Outcome, done, fails}
use nass.Config.{
  Config, default_config, resolve_path, resolve_at, resolve_with, resolve_paths, with_issuer,
  validated, after_resolve, decoded_with, load,
}

-- No path, or one from the root.
abbrev pub IsUnsetOrAbs : Text → Type 0
IsUnsetOrAbs p = (is_empty p ≡ true) ⊎ (is_abs p ≡ true)

abbrev pub IsResolved : Config → Type 0
IsResolved c =
    IsUnsetOrAbs c.oidc.key_file
    × IsUnsetOrAbs c.oidc.crypto_key_file
    × IsUnsetOrAbs c.tls.cert_file
    × IsUnsetOrAbs c.tls.key_file
    × IsUnsetOrAbs c.orchestrator.data_root
    × IsUnsetOrAbs c.orchestrator.compose_root
    × IsUnsetOrAbs c.db_path

-- A database, a host and an issuer are set, and no path depends on where the program is started.
abbrev pub IsUsable : Text → Config → Type 0
IsUsable path c =
    IsResolved c
    × (is_abs c.db_path ≡ true)
    × (is_empty c.server.base_host ≡ false)
    × (is_empty c.oidc.issuer ≡ false)
    × (c.path ≡ path)

abbrev pub Succeeds : (Config → Type 0) → Outcome Config → Type 0
Succeeds P (done c) = P c
Succeeds P (fails t) = Unit {0}

resolve_path-IsUnsetOrAbs :
    (base p : Text) → is_abs base ≡ true → IsUnsetOrAbs (resolve_path base p)
resolve_path-IsUnsetOrAbs base p rooted = elim (Bool-cases (is_empty p)) [
  | inl t ↦ rw t (inl t)
  | inr f ↦ elim (Bool-cases (is_abs p)) [
    | inl t ↦ rw f (rw t (inr t))
    | inr g ↦ rw f (rw g (inr (join_path-is_abs base p rooted)))
  ]
]

resolve_at-IsResolved :
    (base : Text) (c : Config) → is_abs base ≡ true → IsResolved (resolve_at base c)
resolve_at-IsResolved base c rooted = (
  resolve_path-IsUnsetOrAbs base c.oidc.key_file rooted,
  resolve_path-IsUnsetOrAbs base c.oidc.crypto_key_file rooted,
  resolve_path-IsUnsetOrAbs base c.tls.cert_file rooted,
  resolve_path-IsUnsetOrAbs base c.tls.key_file rooted,
  resolve_path-IsUnsetOrAbs base c.orchestrator.data_root rooted,
  resolve_path-IsUnsetOrAbs base c.orchestrator.compose_root rooted,
  resolve_path-IsUnsetOrAbs base c.db_path rooted,
)

set_is_abs : (p : Text) → is_empty p ≡ false → IsUnsetOrAbs p → is_abs p ≡ true
set_is_abs p f (inl t) = ground (arith, f, t)
set_is_abs p f (inr t) = t

with_issuer-IsUsable :
    (path : Text) (c : Config)
    → IsResolved c
    → is_empty c.server.base_host ≡ false
    → is_empty c.db_path ≡ false
    → c.path ≡ path
    → IsUsable path (with_issuer c)
with_issuer-IsUsable path c r host set same =
    let (k, x, cert, tls, files, compose, database) = r in
    let rooted = set_is_abs c.db_path set database in
    elim (Bool-cases (is_empty c.oidc.issuer)) [
      | inl t ↦
          rw t (rw host ((k, x, cert, tls, files, compose, database), rooted, host, refl, same))
      | inr f ↦ rw f (r, rooted, host, f, same)
    ]

unless_fails :
    (P : Config → Type 0) (b : Bool) (t : Trouble) (o : Outcome Config)
    → (b ≡ false → Succeeds P o)
    → Succeeds P (if b then fails t else o)
unless_fails P true t o h = tt
unless_fails P false t o h = h refl

validated-IsUsable :
    (path : Text) (c : Config)
    → IsResolved c
    → c.path ≡ path
    → Succeeds (IsUsable path) (validated c)
unfolding validated
validated-IsUsable path c r same =
    unless_fails _ _ _ _
      (λ host. unless_fails _ _ _ _ (λ set. with_issuer-IsUsable path c r host set same))

module _ (working_dir : Option Text)
    (from : (d : Text) → working_dir ≡ some d → is_abs d ≡ true) where
  resolve_with-IsUsable :
      (path : Text) (c : Config) (base : Option Text)
      → abs_path working_dir (dir c.path) ≡ base
      → c.path ≡ path
      → Succeeds (IsUsable path) (after_resolve (resolve_with c base))
  resolve_with-IsUsable path c none e same = tt
  resolve_with-IsUsable path c (some base) e same =
      validated-IsUsable path (resolve_at base c)
        (resolve_at-IsResolved base c (abs_path-is_abs working_dir (dir c.path) base from e)) same

  decoded_with-IsUsable :
      (path : Text) (c : Option Config) → Succeeds (IsUsable path) (decoded_with working_dir path c)
  unfolding resolve_paths
  decoded_with-IsUsable path none = tt
  decoded_with-IsUsable path (some c) =
      resolve_with-IsUsable path (record c { path = path }) _ refl refl

  -- Whatever the file holds: a configuration that Load returns has a host, an issuer, and a database at a
  -- path from the root, and each of its other paths is unset or from the root, so that no later change
  -- of the working directory matters. os.Getwd reports a path from the root.
  pub load-IsUsable :
      (decode_file : Text → Config → Option Config) (path : Text)
      → Succeeds (IsUsable path) (load working_dir decode_file path)
  unfolding load
  load-IsUsable decode_file path = decoded_with-IsUsable path (decode_file path default_config)
