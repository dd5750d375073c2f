-- ===== src/Apps/Qbittorrent.antt =====
-- internal/apps/qbittorrent: the settings that are forced into qBittorrent.conf. A Go map is a list of its
-- entries in the order in which `range` goes over them, which the language leaves open.
pub mod Keys
pub mod Patched
pub mod Insertion
pub mod Others
pub mod Settled
mod Tests
use nass.Common.{
  ℕ, zero, suc, ◌+◌, Bool, true, false, not, ◌&&◌, Option, none, some, List, [], ◌∷◌, ◌++◌, Text,
  text, is_empty, ◌==◌, nat_eq_test, text_eq_test, if◌then◌else◌, any_of, split, join, trim_space,
  has_prefix, has_suffix, has_no,
}
use nass.Proxy.Manager.{text_le}

abbrev pub Setting : Type 0
Setting = Text × Text

abbrev pub web_ui_settings : List Setting
web_ui_settings =
    (text "WebUI\\HostHeaderValidation", text "false")
    ∷ (text "WebUI\\AuthSubnetWhitelistEnabled", text "true")
    ∷ (text "WebUI\\AuthSubnetWhitelist", text "0.0.0.0/0")
    ∷ (text "WebUI\\CSRFProtection", text "false")
    ∷ []

-- `key=` and `key=value`.
abbrev pub key_prefix : Setting → Text
key_prefix s = s.0 ++ b'=' ∷ []

abbrev pub wanted : Setting → Text
wanted s = s.0 ++ b'=' ∷ s.1

-- The loop over the map for one line: the line as it was, what has taken its place, and `changed`.
unfoldable pub patch_line : List Setting → Text → Text → Bool → Text × Bool
patch_line [] line now changed = (now, changed)
patch_line (s ∷ kv) line now changed =
    let kept = patch_line kv line now changed in
    let forced = patch_line kv line (wanted s) true in
    if has_prefix line (key_prefix s) then (if line == wanted s then kept else forced) else kept

unfoldable pub patch_lines : List Setting → List Text → Bool → List Text × Bool
patch_lines kv [] changed = ([], changed)
patch_lines kv (line ∷ lines) changed =
    let r = patch_line kv line line changed in
    let rest = patch_lines kv lines r.1 in (r.0 ∷ rest.0, rest.1)

-- `seen[k]`
abbrev pub is_seen : List Text → Setting → Bool
is_seen lines s = any_of (λ line. has_prefix line (key_prefix s)) lines

unfoldable pub missing : List Text → List Setting → List Text
missing lines [] = []
missing lines (s ∷ kv) =
    let rest = missing lines kv in if is_seen lines s then rest else wanted s ∷ rest

-- sort.Strings: texts that are equal cannot be told apart, so any sorting is this one.
unfoldable pub insert_text : Text → List Text → List Text
insert_text t [] = t ∷ []
insert_text t (u ∷ texts) =
    let rest = insert_text t texts in if text_le t u then t ∷ u ∷ texts else u ∷ rest

unfoldable pub sort_texts : List Text → List Text
sort_texts [] = []
sort_texts (t ∷ texts) = insert_text t (sort_texts texts)

abbrev pub is_section : Text → Bool
is_section t = has_prefix t (text "[") && has_suffix t (text "]")

-- The loop that finds insertAt, where `none` is -1; `i` is the number of the line.
unfoldable pub place : List Text → ℕ → Bool → Option ℕ → Option ℕ
place [] i in_prefs at = at
place (line ∷ lines) i in_prefs at =
    let t = trim_space line in
    let opened = place lines (i + 1) true (some (i + 1)) in
    let passed = place lines (i + 1) in_prefs at in
    let moved = place lines (i + 1) in_prefs (some (i + 1)) in
    if t == text "[Preferences]"
    then opened
    else if in_prefs
    then (if is_section t then at else if is_empty t then passed else moved)
    else passed

-- lines[:at], the new lines, lines[at:]
unfoldable pub insert_at : ℕ → List Text → List Text → List Text
insert_at zero new lines = new ++ lines
insert_at (suc at) new [] = new
insert_at (suc at) new (line ∷ lines) = line ∷ insert_at at new lines

-- An empty line at the end, unless there is one.
unfoldable pub close_last : List Text → List Text
close_last [] = []
close_last (line ∷ []) = if is_empty line then line ∷ [] else line ∷ [] ∷ []
close_last (line ∷ next ∷ lines) = line ∷ close_last (next ∷ lines)

abbrev pub add_lines : List Text → List Text → Option ℕ → List Text
add_lines lines new none = close_last lines ++ text "[Preferences]" ∷ new
add_lines lines new (some at) = insert_at at new lines

abbrev pub patched_body : Text → List Text × Bool → List Text → Text × Bool
patched_body body r [] = if r.1 then (join b'\n' r.0, true) else (body, false)
patched_body body r (m ∷ new) =
    (join b'\n' (add_lines r.0 (sort_texts (m ∷ new)) (place r.0 0 false none)), true)

unfoldable pub patch_conf : Text → List Setting → Text × Bool
patch_conf body kv =
    let lines = split b'\n' body in
    patched_body body (patch_lines kv lines false) (missing lines kv)
