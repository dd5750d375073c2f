-- ===== src/Config.antt =====
-- internal/config/config.go: the configuration of the program. Decoding and encoding TOML are parameters, and
-- os.Getwd is `working_dir`.
pub mod Loading
mod Tests
use nass.Common.{
  Bool, true, false, not, ◌&&◌, Option, none, some, List, [], ◌∷◌, ◌++◌, Text, text, is_empty,
  is_abs, if◌then◌else◌, dir, join_path, abs_path,
}
use nass.Host.{
  H, write_file, stat, Trouble, says, within, Outcome, done, fails, return, raise, act, caught,
  ◌>>=◌,
}

pub record ServerConfig : Type 0 where
  pub https_addr : Text
  pub http_addr : Text
  pub base_host : Text

pub record TlsConfig : Type 0 where
  pub cert_file : Text
  pub key_file : Text

pub record OidcConfig : Type 0 where
  pub issuer : Text
  pub subdomain : Text
  pub key_file : Text
  pub crypto_key_file : Text

pub record PortalConfig : Type 0 where
  pub title : Text
  pub subdomain : Text

pub record OrchestratorConfig : Type 0 where
  pub data_root : Text
  pub compose_root : Text
  pub docker_compose : Text
  pub backend_port_range : Text

-- `db_path` is the only field of its table.
pub record Config : Type 0 where
  pub server : ServerConfig
  pub tls : TlsConfig
  pub db_path : Text
  pub oidc : OidcConfig
  pub portal : PortalConfig
  pub orchestrator : OrchestratorConfig
  pub path : Text

abbrev pub default_config : Config
default_config = record {
  server = record { https_addr = text ":443"; http_addr = text ":80"; base_host = [] };
  tls = record { cert_file = []; key_file = [] };
  db_path = text "nass.db";
  oidc = record {
    issuer = [];
    subdomain = text "auth";
    key_file = text "oidc.key";
    crypto_key_file = text "oidc-crypto.key";
  };
  portal = record { title = text "nass"; subdomain = [] };
  orchestrator = record {
    data_root = [];
    compose_root = [];
    docker_compose = text "docker compose";
    backend_port_range = text "20000-29999";
  };
  path = [];
}

-- `rel` of resolvePaths.
abbrev pub resolve_path : Text → Text → Text
resolve_path base p = if not (is_empty p) && not (is_abs p) then join_path base p else p

abbrev pub resolve_at : Text → Config → Config
resolve_at base c = record c {
  db_path = resolve_path base c.db_path;
  oidc = record c.oidc {
    key_file = resolve_path base c.oidc.key_file;
    crypto_key_file = resolve_path base c.oidc.crypto_key_file;
  };
  tls = record {
    cert_file = resolve_path base c.tls.cert_file;
    key_file = resolve_path base c.tls.key_file;
  };
  orchestrator = record c.orchestrator {
    data_root = resolve_path base c.orchestrator.data_root;
    compose_root = resolve_path base c.orchestrator.compose_root;
  };
}

abbrev pub resolve_with : Config → Option Text → Outcome Config
resolve_with c none = fails (says (text "getwd"))
resolve_with c (some base) = done (resolve_at base c)

unfoldable pub resolve_paths : Option Text → Config → Outcome Config
resolve_paths working_dir c = resolve_with c (abs_path working_dir (dir c.path))

abbrev pub with_issuer : Config → Config
with_issuer c =
    if is_empty c.oidc.issuer && not (is_empty c.server.base_host)
    then record c {
      oidc = record c.oidc {
        issuer = text "https://" ++ (c.oidc.subdomain ++ b'.' ∷ c.server.base_host);
      };
    }
    else c

-- validate, and what Load does after it.
unfoldable pub validated : Config → Outcome Config
validated c =
    if is_empty c.server.base_host
    then fails (says (text "server.base_host is required"))
    else if is_empty c.db_path
    then fails (says (text "db.path is required"))
    else done (with_issuer c)

abbrev pub after_resolve : Outcome Config → Outcome Config
after_resolve (fails t) = fails t
after_resolve (done c) = validated c

abbrev pub decoded_with : Option Text → Text → Option Config → Outcome Config
decoded_with working_dir path none = fails (says (text "read the configuration"))
decoded_with working_dir path (some c) =
    after_resolve (resolve_paths working_dir (record c { path = path }))

-- `decode_file` decodes the file at a path on top of a configuration.
unfoldable pub load : Option Text → (Text → Config → Option Config) → Text → Outcome Config
load working_dir decode_file path = decoded_with working_dir path (decode_file path default_config)

abbrev pub written : (Config → Text) → Text → Config → Outcome Text → H (Unit {0})
written encode path c (done found) = raise (says (path ++ text " already exists"))
written encode path c (fails t) = do out ← act (write_file path (encode c)); return tt

unfoldable pub write : (Config → Text) → Text → Config → H (Unit {0})
write encode path c = do found ← caught (act (stat path)); written encode path c found
