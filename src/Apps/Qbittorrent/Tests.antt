-- ===== src/Apps/Qbittorrent/Tests.antt =====
-- The configuration of qBittorrent at concrete files.
use nass.Common.{
  ◌≡◌, refl, true, [], ◌∷◌, ◌++◌, Text, text, text_eq, split, join, has_prefix, has_suffix,
  trim_space, trim_left, trim_right,
}
use nass.Proxy.Manager.{text_le}
use nass.Apps.Qbittorrent.{
  web_ui_settings, patch_line, patch_lines, missing, insert_text, sort_texts, place, insert_at,
  close_last, patch_conf,
}
use nass.Apps.Qbittorrent.Keys.{is_well_formed}
use nass.Apps.Qbittorrent.Settled.{IsSettled, patch_conf-IsSettled}

code : Unit {0}
unfolding patch_conf patch_lines patch_line missing sort_texts insert_text place insert_at
    close_last split join has_prefix has_suffix trim_space trim_left trim_right text_eq text_le
code = tt

well_formed : is_well_formed web_ui_settings ≡ true
unfolding code
well_formed = refl

-- A file that has a section after the preferences, and one of the settings with another value.
abbrev found : Text
found =
    text "[Preferences]"
    ++ b'\n' ∷ text "WebUI\\CSRFProtection=true"
    ++ b'\n' ∷ b'\n' ∷ text "[RSS]"

patch_conf-IsSettled_example :
    IsSettled web_ui_settings well_formed found (patch_conf found web_ui_settings).0
patch_conf-IsSettled_example = patch_conf-IsSettled web_ui_settings well_formed found

inserts :
    split b'\n' (patch_conf found web_ui_settings).0
    ≡ text "[Preferences]"
      ∷ text "WebUI\\CSRFProtection=false"
      ∷ text "WebUI\\AuthSubnetWhitelist=0.0.0.0/0"
      ∷ text "WebUI\\AuthSubnetWhitelistEnabled=true"
      ∷ text "WebUI\\HostHeaderValidation=false"
      ∷ []
      ∷ text "[RSS]"
      ∷ []
unfolding code
inserts = refl

adds_the_section :
    split b'\n' (patch_conf (text "[RSS]") ((text "k", text "v") ∷ [])).0
    ≡ text "[RSS]" ∷ [] ∷ text "[Preferences]" ∷ text "k=v" ∷ []
unfolding code
adds_the_section = refl
