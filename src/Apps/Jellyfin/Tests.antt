-- ===== src/Apps/Jellyfin/Tests.antt =====
-- The archive of a plugin at concrete entries.
use nass.Common.{
  ◌≡◌, refl, true, false, Option, some, List, [], ◌∷◌, Text, text, text_eq, abs_path, is_abs, clean,
  clean_parts, split, join, join_path, has_prefix, dir, up_to_slash,
}
use mathlib.Core.Option.{some-injective}
use mathlib.Core.Path.{subst}
use nass.Db.{empty_db}
use nass.Host.{Host, fine, make_dir, write_file, fails, says, ◌>>=◌, when, act}
use nass.Host.Meets.{Comes}
use nass.Apps.Jellyfin.{ZipEntry, unzip_into, unzip_entries}
use nass.Apps.Jellyfin.Extraction.{IsExtractionTo, unzip_into-Comes}

abbrev host : Host
host = record {
  world = record {
    db = empty_db;
    now = 100;
    calls = 0;
    fault = λ n. false;
    drawn = 0;
    fresh = λ n. n ∷ [];
    cookies = [];
  };
  made = 0;
  calls = [];
  reply = λ n c. fine [];
}

-- A library in a folder of its own, and a file that would stand beside the plugin.
abbrev files : List ZipEntry
files =
    record { name = text "lib/sso.dll"; is_dir = false; contents = some (text "dll") }
    ∷ record { name = text "../evil"; is_dir = false; contents = some (text "sh") }
    ∷ []

abbrev archive : Text → Option (List ZipEntry)
archive bytes = some files

code : Unit {0}
unfolding unzip_into unzip_entries clean clean_parts split join join_path has_prefix dir up_to_slash
    text_eq ◌>>=◌ when act
code = tt

abbrev here : Option Text
here = some (text "/srv")

here-is_abs : (dir : Text) → here ≡ some dir → is_abs dir ≡ true
unfolding has_prefix
here-is_abs dir e = subst (λ d. is_abs d ≡ true) (some-injective (text "/srv") dir e) refl

unzip_into-Comes_example :
    Comes host
      (unzip_into here archive [] (text "/data/sso"))
      (λ u h. IsExtractionTo here archive here-is_abs (abs_path here (text "/data/sso")) host h)
      (λ t h. IsExtractionTo here archive here-is_abs (abs_path here (text "/data/sso")) host h)
unzip_into-Comes_example = unzip_into-Comes here archive here-is_abs host [] (text "/data/sso")

stops_at_the_second :
    (unzip_into here archive [] (text "/data/sso") host).1.calls
    ≡ write_file (text "/data/sso/lib/sso.dll") (text "dll") ∷ make_dir (text "/data/sso/lib") ∷ []
unfolding code
stops_at_the_second = refl

escapes :
    (unzip_into here archive [] (text "/data/sso") host).0
    ≡ fails (says (text "zip entry escapes dest"))
unfolding code
escapes = refl
