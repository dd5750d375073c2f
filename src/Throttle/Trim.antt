-- ===== src/Throttle/Trim.antt =====
-- What trimming does to the failures that a key reads, and that it is never seen later on.
use nass.Common.{
  ℕ, ◌≤◌, ◌≡◌, refl, ◌∙◌, inl, inr, Option, none, some, List, [], ◌∷◌, ◌++◌, Text, Dict, keys,
  lookup, lookup-insert, lookup-delete, insert, delete, ◌==◌, if◌then◌else◌, text_eq_test,
  text_eq_iff, text_eq_refl, Option-cases, arith,
}
use nass.Throttle.{
  recent, or_nil, at, store_kept, trim, trim_each, record_failure, Throttle, sweep, trim_both,
  user_key, ip_key,
}
use nass.Throttle.Keys.{user_ip_test, ip_user_test}

-- A key with no failure left is deleted.
abbrev pub kept : List ℕ → Option (List ℕ)
kept [] = none
kept (ts ∷ l) = some (ts ∷ l)

abbrev pub trimmed : ℕ → ℕ → Option (List ℕ) → Option (List ℕ)
trimmed now window none = none
trimmed now window (some l) = kept (recent now window l)

lookup-store_kept :
    (k j : Text) (l : List ℕ) (m : Dict (List ℕ))
    → lookup j (store_kept k l m) ≡ (if k == j then kept l else lookup j m)
lookup-store_kept k j [] m = lookup-delete k j m
lookup-store_kept k j (ts ∷ l) m = lookup-insert k j (ts ∷ l) m

pub lookup-trim :
    (now window : ℕ) (k j : Text) (m : Dict (List ℕ))
    → lookup j (trim now window k m)
      ≡ (if k == j then trimmed now window (lookup j m) else lookup j m)
unfolding trim
lookup-trim now window k j m = elim (Option-cases (lookup k m)) [
  | inl e ↦ rw (e, trim) (ground (arith, text_eq_iff k j))
  | inr (l, e) ↦
      rw (e, trim) (lookup-store_kept k j (recent now window l) m ∙ ground (arith, text_eq_iff k j))
]

-- A later reading sees no difference.
pub recent-recent :
    (now later window : ℕ) (l : List ℕ)
    → now ≤ later
    → recent later window (recent now window l) ≡ recent later window l
recent-recent now later window [] h = refl
recent-recent now later window (ts ∷ l) h = ground (arith, recent-recent now later window l h)

or_nil-kept : (l : List ℕ) → or_nil (kept l) ≡ l
or_nil-kept [] = refl
or_nil-kept (ts ∷ l) = refl

or_nil-trimmed :
    (now window : ℕ) (o : Option (List ℕ))
    → or_nil (trimmed now window o) ≡ recent now window (or_nil o)
or_nil-trimmed now window none = refl
or_nil-trimmed now window (some l) = or_nil-kept (recent now window l)

pub at-trim :
    (now window : ℕ) (k j : Text) (m : Dict (List ℕ))
    → at j (trim now window k m) ≡ (if k == j then recent now window (at j m) else at j m)
unfolding at
at-trim now window k j m =
    rw (lookup-trim now window k j m) (ground (arith, or_nil-trimmed now window (lookup j m)))

pub recent-at-trim :
    (now later window : ℕ) (k j : Text) (m : Dict (List ℕ))
    → now ≤ later
    → recent later window (at j (trim now window k m)) ≡ recent later window (at j m)
recent-at-trim now later window k j m h =
    rw (at-trim now window k j m) (ground (arith, recent-recent now later window (at j m) h))

pub recent-at-trim_each :
    (now later window : ℕ) (ks : List Text) (j : Text) (m : Dict (List ℕ))
    → now ≤ later
    → recent later window (at j (trim_each now window ks m)) ≡ recent later window (at j m)
unfolding trim_each
recent-at-trim_each now later window [] j m h = refl
recent-at-trim_each now later window (k ∷ ks) j m h =
    recent-at-trim_each now later window ks j (trim now window k m) h
    ∙ recent-at-trim now later window k j m h

pub window-sweep : (now : ℕ) (t : Throttle) → (sweep now t).window ≡ t.window
unfolding sweep
window-sweep now t = ground arith

pub recent-at-sweep :
    (now later : ℕ) (t : Throttle) (j : Text)
    → now ≤ later
    → recent later t.window (at j (sweep now t).entries) ≡ recent later t.window (at j t.entries)
unfolding sweep
recent-at-sweep now later t j h =
    ground (arith, recent-at-trim_each now later t.window (keys t.entries) j t.entries h)

pub at-insert :
    (k j : Text) (l : List ℕ) (m : Dict (List ℕ))
    → at j (insert k l m) ≡ (if k == j then l else at j m)
unfolding at
at-insert k j l m = rw (lookup-insert k j l m) (ground arith)

pub at-delete :
    (k j : Text) (m : Dict (List ℕ)) → at j (delete k m) ≡ (if k == j then [] else at j m)
unfolding at
at-delete k j m = rw (lookup-delete k j m) (ground arith)

-- A failure is added to its own key and to no other.
pub recent-at-record_failure :
    (now later window : ℕ) (k j : Text) (m : Dict (List ℕ))
    → now ≤ later
    → recent later window (at j (record_failure now window k m))
      ≡ (if k == j then recent later window (at j m ++ now ∷ []) else recent later window (at j m))
unfolding record_failure
recent-at-record_failure now later window k j m h =
    recent-at-trim now later window k j _ h
    ∙ rw (at-insert k j _ m) (ground (arith, text_eq_iff k j))

-- After both calls of `trim` in `Allow` and in `RetryAfter`, both keys hold what is recent.
pub at-trim_both-user :
    (now : ℕ) (ip u : Text) (t : Throttle)
    → at (user_key ip u) (trim_both now ip u t).entries
      ≡ recent now t.window (at (user_key ip u) t.entries)
at-trim_both-user now ip u t = rw (
  at-trim now t.window (ip_key ip) (user_key ip u) (trim now t.window (user_key ip u) t.entries),
  ip_user_test ip ip u,
  at-trim now t.window (user_key ip u) (user_key ip u) t.entries,
  text_eq_refl (user_key ip u),
)

pub at-trim_both-addr :
    (now : ℕ) (ip u : Text) (t : Throttle)
    → at (ip_key ip) (trim_both now ip u t).entries ≡ recent now t.window (at (ip_key ip) t.entries)
at-trim_both-addr now ip u t = rw (
  at-trim now t.window (ip_key ip) (ip_key ip) (trim now t.window (user_key ip u) t.entries),
  text_eq_refl (ip_key ip),
  at-trim now t.window (user_key ip u) (ip_key ip) t.entries,
  user_ip_test ip ip u,
)
