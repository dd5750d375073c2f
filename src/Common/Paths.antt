-- ===== src/Common/Paths.antt =====
-- Paths as package path/filepath has them on Unix: a text with parts between slashes.
use mathlib.Core.Bool.{Bool}
use mathlib.Core.Option.{Option, none, some}
use mathlib.Core.List.{List, [], ◌∷◌, ◌++◌}
use nass.Common.Tests.{if◌then◌else◌, ◌==◌, nat_eq_test}
use nass.Common.Bytes.{Text, text, text_eq_test, is_empty, split, join, has_prefix}

-- filepath.IsAbs
abbrev pub is_abs : Text → Bool
is_abs path = has_prefix path (text "/")

-- The parts that are kept, last first; `..` takes one back, at the root none.
abbrev pub back : Bool → List Text → List Text
back rooted [] = if rooted then [] else text ".." ∷ []
back rooted (p ∷ kept) = if p == text ".." then text ".." ∷ p ∷ kept else kept

abbrev pub keep_part : Bool → Text → List Text → List Text
keep_part rooted part kept =
    if is_empty part
    then kept
    else if part == text "."
    then kept
    else if part == text ".."
    then back rooted kept
    else part ∷ kept

unfoldable pub clean_parts : Bool → List Text → List Text → List Text
clean_parts rooted [] kept = kept
clean_parts rooted (part ∷ parts) kept = clean_parts rooted parts (keep_part rooted part kept)

abbrev pub put_back : List Text → List Text → List Text
put_back [] parts = parts
put_back (p ∷ kept) parts = put_back kept (p ∷ parts)

abbrev pub or_dot : Text → Text
or_dot [] = text "."
or_dot (c ∷ s) = c ∷ s

-- filepath.Clean
unfoldable pub clean : Text → Text
unfolding split join has_prefix clean_parts
clean path =
    let rooted = is_abs path in
    let body = join b'/' (put_back (clean_parts rooted (split b'/' path) []) []) in
    if rooted then b'/' ∷ body else or_dot body

-- filepath.Join of two parts.
unfoldable pub join_path : Text → Text → Text
unfolding clean
join_path [] [] = []
join_path [] (c ∷ s) = clean (c ∷ s)
join_path (c ∷ base) name = clean (c ∷ base ++ b'/' ∷ name)

-- filepath.Abs, with what os.Getwd reports.
abbrev pub joined_to : Text → Option Text → Option Text
joined_to path none = none
joined_to path (some dir) = some (join_path dir path)

abbrev pub abs_path : Option Text → Text → Option Text
abs_path working_dir path =
    let absolute = clean path in if is_abs path then some absolute else joined_to path working_dir

abbrev pub without_empty : List Text → List Text
without_empty [] = []
without_empty (p ∷ parts) = if is_empty p then without_empty parts else p ∷ without_empty parts

abbrev pub clean_join : List Text → Text
unfolding clean
clean_join [] = []
clean_join (p ∷ parts) = clean (join b'/' (p ∷ parts))

-- filepath.Join
unfoldable pub join_paths : List Text → Text
join_paths parts = clean_join (without_empty parts)

-- The path up to its last slash, that with it.
unfoldable pub up_to_slash : Text → Text
up_to_slash [] = []
up_to_slash (c ∷ s) =
    let rest = up_to_slash s in
    if is_empty rest then (if c == b'/' then c ∷ [] else []) else c ∷ rest

-- filepath.Dir
unfoldable pub dir : Text → Text
unfolding up_to_slash clean
dir path = clean (up_to_slash path)
