-- ===== src/Apps/Jellyfin/Extraction.antt =====
-- Where unzipInto of internal/apps/jellyfin writes.
use nass.Common.{
  ◌≡◌, refl, sym, ap, ◌∙◌, true, Option, none, some, List, [], ◌∷◌, ◌++◌, Text, text_eq_test,
  text_eq_iff, has_prefix, dir, join_path, abs_path, is_abs, All, GoesDown, join_path-GoesDown,
  abs_path-is_abs, inl, inr, ◌⊎◌, arith, Bool-cases,
}
use mathlib.Core.List.{append_assoc}
use nass.Common.{All-append}
use nass.Host.{Host, Call, make_dir, write_file, asked}
use nass.Host.Meets.{Comes, comes-return, comes-raise, comes-when, comes-bind, comes-act, comes-to}
use nass.Apps.Jellyfin.{
  ZipEntry, is_below, opened, unzip_entry, unzip_entries, unzip_with, unzip_into,
}

-- A path that is the folder or below it, and has no part that goes up again.
abbrev pub IsPlace : Text → Text → Type 0
IsPlace dest path = ((path ≡ dest) ⊎ (has_prefix path (dest ++ b'/' ∷ []) ≡ true)) × GoesDown path

-- A file at such a place, or a folder there or the one that such a place is in.
abbrev pub IsWithin : Text → Call → Type 0
IsWithin dest (write_file path contents) = IsPlace dest path
IsWithin dest (make_dir path) =
    IsPlace dest path ⊎ ((below : Text) × IsPlace dest below × (path ≡ dir below))
IsWithin dest c = ⊥

-- Nothing else was done.
abbrev pub IsExtraction : Text → Host → Host → Type 0
IsExtraction dest h h' =
    (new : List Call) × All (IsWithin dest) new × (h'.calls ≡ new ++ h.calls) × (h'.world ≡ h.world)

module _ (dest : Text) where
  nothing_done : (h : Host) → IsExtraction dest h h
  nothing_done h = ([], tt, refl, refl)

  one_more :
      (h middle h' : Host) (c : Call)
      → IsExtraction dest h middle
      → IsWithin dest c
      → h' ≡ asked c middle
      → IsExtraction dest h h'
  one_more h middle h' c (new, all, e, w) ok after =
      (c ∷ new, (ok, all), ap (λ x. x.calls) after ∙ ap (λ l. c ∷ l) e, ap (λ x. x.world) after ∙ w)

  then_more :
      (h middle h' : Host)
      → IsExtraction dest h middle
      → IsExtraction dest middle h'
      → IsExtraction dest h h'
  then_more h middle h' (new, all, e, w) (more, all', e', w') = (
    more ++ new,
    All-append (IsWithin dest) more new all' all,
    e' ∙ ap (λ l. more ++ l) e ∙ sym (append_assoc more new h.calls),
    w' ∙ w,
  )

  is_below-IsPlace :
      (name : Text)
      → is_abs dest ≡ true
      → is_below dest (join_path dest name) ≡ true
      → IsPlace dest (join_path dest name)
  is_below-IsPlace name rooted below = (
    elim (Bool-cases (has_prefix (join_path dest name) (dest ++ b'/' ∷ []))) [
      | inl t ↦ inr t
      | inr f ↦ inl ((text_eq_iff (join_path dest name) dest).0 (ground (arith, below, f)))
    ],
    join_path-GoesDown dest name rooted,
  )

  opened-Comes :
      (h middle : Host) (contents : Option Text) (out : Text)
      → IsExtraction dest h middle
      → IsPlace dest out
      → Comes middle
          (opened contents out)
          (λ _ h'. IsExtraction dest h h')
          (λ t h'. IsExtraction dest h h')
  opened-Comes h middle none out so_far place = comes-raise _ so_far
  opened-Comes h middle (some contents) out so_far place =
      let c = write_file out contents in
      comes-bind (λ _ x. x ≡ asked c middle) (λ _ x. x ≡ asked c middle) _ _
        (comes-act _ (λ o e. refl) (λ e o x. refl))
        (λ _ x e. comes-return _ (one_more h middle x c so_far place e))
        (λ t x e. one_more h middle x c so_far place e)

  unzip_entry-Comes :
      (h : Host) (f : ZipEntry)
      → is_abs dest ≡ true
      → Comes h
          (unzip_entry dest f)
          (λ _ h'. IsExtraction dest h h')
          (λ t h'. IsExtraction dest h h')
  unzip_entry-Comes h f rooted =
      let out = join_path dest f.name in
      comes-when _ _ _ (λ t. comes-raise _ (nothing_done h))
        (λ t.
          let place = is_below-IsPlace f.name rooted (ground (arith, t)) in
          let made = make_dir out in
          let parent = make_dir (dir out) in
          comes-when _ _ _
            (λ u.
              comes-bind (λ _ x. x ≡ asked made h) (λ _ x. x ≡ asked made h) _ _
                (comes-act _ (λ o e. refl) (λ e o x. refl))
                (λ _ x e. comes-return _ (one_more h h x made (nothing_done h) (inl place) e))
                (λ t' x e. one_more h h x made (nothing_done h) (inl place) e))
            (λ u.
              comes-bind (λ _ x. x ≡ asked parent h) (λ _ x. x ≡ asked parent h) _ _
                (comes-act _ (λ o e. refl) (λ e o x. refl))
                (λ _ x e.
                  opened-Comes h x f.contents out
                    (one_more h h x parent (nothing_done h) (inr (out, place, refl)) e) place)
                (λ t' x e. one_more h h x parent (nothing_done h) (inr (out, place, refl)) e)))

  unzip_entries-Comes :
      (h : Host) (files : List ZipEntry)
      → is_abs dest ≡ true
      → Comes h
          (unzip_entries dest files)
          (λ _ h'. IsExtraction dest h h')
          (λ t h'. IsExtraction dest h h')
  unfolding unzip_entries
  unzip_entries-Comes h [] rooted = comes-return _ (nothing_done h)
  unzip_entries-Comes h (f ∷ files) rooted =
      comes-bind _ _ _ _ (unzip_entry-Comes h f rooted)
        (λ _ x so_far.
          comes-to _ _ _ (λ _ y more. then_more h x y so_far more)
            (λ _ y more. then_more h x y so_far more) (unzip_entries-Comes x files rooted))
        (λ t x so_far. so_far)

module _ (working_dir : Option Text) (zip_files : Text → Option (List ZipEntry))
    (from : (dir : Text) → working_dir ≡ some dir → is_abs dir ≡ true) where
  abbrev pub IsExtractionTo : Option Text → Host → Host → Type 0
  IsExtractionTo none h h' = h' ≡ h
  IsExtractionTo (some dest) h h' = IsExtraction dest h h'

  unzip_with-Comes :
      (h : Host) (dest : Text) (files : Option (List ZipEntry)) (absolute : Option Text)
      → abs_path working_dir dest ≡ absolute
      → Comes h
          (unzip_with working_dir zip_files files absolute)
          (λ _ h'. IsExtractionTo absolute h h')
          (λ t h'. IsExtractionTo absolute h h')
  unzip_with-Comes h dest none none e = comes-raise _ refl
  unzip_with-Comes h dest none (some absolute) e = comes-raise _ (nothing_done absolute h)
  unzip_with-Comes h dest (some files) none e = comes-raise _ refl
  unzip_with-Comes h dest (some files) (some absolute) e =
      unzip_entries-Comes absolute h files (abs_path-is_abs working_dir dest absolute from e)

  -- Whatever the archive holds and whatever the system answers, also where the extraction ends with an
  -- error: each file is written at a path that is the absolute destination or begins with it and a slash,
  -- and that has no part `..`; each folder that is made is one of these or the folder of one; and
  -- nothing else is done. os.Getwd, which a relative destination asks, reports an absolute path.
  pub unzip_into-Comes :
      (h : Host) (zip_bytes dest : Text)
      → Comes h
          (unzip_into working_dir zip_files zip_bytes dest)
          (λ _ h'. IsExtractionTo (abs_path working_dir dest) h h')
          (λ t h'. IsExtractionTo (abs_path working_dir dest) h h')
  unfolding unzip_into
  unzip_into-Comes h zip_bytes dest =
      unzip_with-Comes h dest (zip_files zip_bytes) (abs_path working_dir dest) refl
