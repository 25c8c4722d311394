-- ===== src/Syncer/Rewrite.antt =====
-- Where a path below a watched one lands.
use js_ng.Prelude.{ℕ, ◌≡◌, ap, ◌∙◌, false, some, [], ◌∷◌, ◌++◌, starts, nat_eq, if◌then◌else◌, Str}
use js_ng.Prelude.Dict.{Dict}
use js_ng.Text.Replace.{Absent, replace, starts_with_append, replace_start}
use js_ng.Syncer.{rewrite_path_for_dest}

-- No path is a start of the text.
abbrev pub NoneStarts : Dict Str Str → Str → Type 0
NoneStarts [] s = Unit {0}
NoneStarts ((path, _) ∷ paths) s = (starts path s ≡ false) × NoneStarts paths s

-- The first of the watched paths that a path begins with is replaced by its destination, and the
-- rest is kept, if the watched path is not empty and does not occur in the rest once more.
pub rewrite_path_for_dest-append :
    (earlier later : Dict Str Str) (c : ℕ) (path dest rest : Str)
    → NoneStarts earlier ((c ∷ path) ++ rest)
    → Absent (c ∷ path) rest
    → rewrite_path_for_dest (earlier ++ (c ∷ path, dest) ∷ later) ((c ∷ path) ++ rest)
      ≡ some (dest ++ rest)
unfolding rewrite_path_for_dest
rewrite_path_for_dest-append [] later c path dest rest h k =
    ap
      (λ b.
        if b
        then some (replace (c ∷ path) dest ((c ∷ path) ++ rest))
        else rewrite_path_for_dest later ((c ∷ path) ++ rest))
      (starts_with_append (c ∷ path) rest)
    ∙ ap some (replace_start c path dest rest k)
rewrite_path_for_dest-append ((p, d) ∷ earlier) later c path dest rest h k =
    rw (h.0) (rewrite_path_for_dest-append earlier later c path dest rest h.1 k)
