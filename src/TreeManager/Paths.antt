-- ===== src/TreeManager/Paths.antt =====
-- The path that a node reports leads to it.
use mathlib.Core.List.{append_assoc}
use js_ng.Prelude.{
  ◌≡◌, refl, ap, sym, ◌∙◌, false, Option, none, some, List, [], ◌∷◌, ◌++◌, arith, ◌==◌, str_eq,
  ==_refl, Str, Option-cases, inl, inr,
}
use js_ng.Prelude.Result.{ok}
use js_ng.Text.{join}
use js_ng.Text.Split.{HasNo, AllHaveNo, split-join}
use js_ng.TreeManager.{
  TreeNode, node, Children, child, name_of, children_of, find_child, get_child_by_name, get_at,
  get_by_path, get_path,
}

module _ {D : Type 0} where
  -- A node stands in a dict of children under a key; no key stands there twice.
  pub data IsEntry (n : Str) (t : TreeNode D) : Children D → Type 0 where
    here : {cs : Children D} → IsEntry n t (child n t cs)
    further :
        {m : Str} {u : TreeNode D} {cs : Children D}
        → (n == m) ≡ false
        → IsEntry n t cs
        → IsEntry n t (child m u cs)

  -- A node stands below the root, its parents upwards to the root: each is among the children of the
  -- next one, under its own name.
  pub data Stands (root : TreeNode D) : TreeNode D → List (TreeNode D) → Type 0 where
    root_child :
        {t : TreeNode D} → IsEntry (name_of t) t (children_of root) → Stands root t (root ∷ [])
    deeper :
        {t p : TreeNode D} {parents : List (TreeNode D)}
        → Stands root p parents
        → IsEntry (name_of t) t (children_of p)
        → Stands root t (p ∷ parents)

-- A name that a path can hold: not empty, and with no dot.
abbrev pub IsPlain : Str → Type 0
IsPlain n = ((n == []) ≡ false) × HasNo b'.' n

-- The names of the nodes are plain, but for that of the last one, the root, which is empty.
abbrev pub ArePlain : {D : Type 0} → List (TreeNode D) → Type 0
ArePlain [] = Unit
ArePlain (t ∷ []) = name_of t ≡ []
ArePlain (t ∷ p ∷ parents) = IsPlain (name_of t) × ArePlain (p ∷ parents)

join-snoc :
    (p : Str) (ps : List Str) (n : Str)
    → join b'.' (p ∷ (ps ++ n ∷ [])) ≡ join b'.' (p ∷ ps) ++ b'.' ∷ n
unfolding join
join-snoc p [] n = refl
join-snoc p (q ∷ ps) n =
    ap (λ s. p ++ b'.' ∷ s) (join-snoc q ps n)
    ∙ sym (append_assoc p (b'.' ∷ join b'.' (q ∷ ps)) (b'.' ∷ n))

AllHaveNo-snoc :
    (ps : List Str) (n : Str) → AllHaveNo b'.' ps → HasNo b'.' n → AllHaveNo b'.' (ps ++ n ∷ [])
AllHaveNo-snoc [] n h k = (k, tt)
AllHaveNo-snoc (p ∷ ps) n h k = (h.0, AllHaveNo-snoc ps n h.1 k)

append-ne : (p n : Str) (c : _) → (p ++ c ∷ n == []) ≡ false
append-ne [] n c = ground arith
append-ne (d ∷ p) n c = ground arith

join-ne : (p : Str) (ps : List Str) → (p == []) ≡ false → (join b'.' (p ∷ ps) == []) ≡ false
unfolding join
join-ne p [] h = h
join-ne p (q ∷ ps) h = append-ne p (join b'.' (q ∷ ps)) b'.'

module _ {D : Type 0} where
  find_child-IsEntry :
      (n : Str) (t : TreeNode D) (cs : Children D) → IsEntry n t cs → find_child n cs ≡ some t
  unfolding find_child
  find_child-IsEntry n t cs here = rw (==_refl n) refl
  find_child-IsEntry n t cs (further ne h) = rw ne (find_child-IsEntry n t _ h)

  get_child-IsEntry :
      (n : Str) (t p : TreeNode D) → IsEntry n t (children_of p) → get_child_by_name n p ≡ some t
  unfolding get_child_by_name
  get_child-IsEntry n t (node m d cs) h = find_child-IsEntry n t cs h

  get_at_child :
      (n : Str) (ns : List Str) (t : TreeNode D) (c : Option (TreeNode D))
      → get_child_by_name n t ≡ c
      → get_at (n ∷ ns) t ≡ (elim c [ none ↦ none | some u ↦ get_at ns u ])
  unfolding get_at
  get_at_child n ns t c e = ap (λ x. elim x [ none ↦ none | some u ↦ get_at ns u ]) e

  get_at-snoc :
      (ns : List Str) (n : Str) (root p t : TreeNode D)
      → get_at ns root ≡ some p
      → get_child_by_name n p ≡ some t
      → get_at (ns ++ n ∷ []) root ≡ some t
  unfolding get_at
  get_at-snoc [] n root p t h k =
      get_at_child n [] root (some t) (ap (get_child_by_name n) (cc h) ∙ k)
  get_at-snoc (m ∷ ns) n root p t h k = elim (Option-cases (get_child_by_name m root)) [
    | inl e ↦ absurd (cc (sym h ∙ get_at_child m ns root none e))
    | inr (c, e) ↦
        get_at_child m (ns ++ n ∷ []) root (some c) e
        ∙ get_at-snoc ns n c p t (sym (get_at_child m ns root (some c) e) ∙ h) k
  ]

  get_path_first :
      (t root : TreeNode D)
      → (name_of t == []) ≡ false
      → name_of root ≡ []
      → get_path (t ∷ root ∷ []) ≡ ok (name_of t)
  unfolding get_path str_eq
  get_path_first t root ne e = rw (ne, e) refl

  get_path_next :
      (t : TreeNode D) (parents : List (TreeNode D)) (q : Str)
      → get_path parents ≡ ok q
      → (name_of t == []) ≡ false
      → (q == []) ≡ false
      → get_path (t ∷ parents) ≡ ok (q ++ b'.' ∷ name_of t)
  unfolding get_path
  get_path_next t parents q h ne filled = rw (ne, h, filled) refl

  -- The names on the way from the root to a node, what its path is, and where they lead.
  record Way (root t : TreeNode D) (parents : List (TreeNode D)) : Type 0 where
    first : Str
    rest : List Str
    path : get_path (t ∷ parents) ≡ ok (join b'.' (first ∷ rest))
    leads : get_at (first ∷ rest) root ≡ some t
    filled : (first == []) ≡ false
    undotted : HasNo b'.' first × AllHaveNo b'.' rest

  way :
      (root t : TreeNode D) (parents : List (TreeNode D))
      → Stands root t parents
      → ArePlain (t ∷ parents)
      → Way root t parents
  unfolding get_at join
  way root t parents (root_child h) plain = record {
    first = name_of t;
    rest = [];
    path = get_path_first t root plain.0.0 plain.1;
    leads = get_at_child (name_of t) [] root (some t) (get_child-IsEntry (name_of t) t root h);
    filled = plain.0.0;
    undotted = (plain.0.1, tt);
  }
  way root t parents (deeper {p = p} {parents = above} s h) plain =
      let w = way root p above s plain.1 in
      record {
        first = w.first;
        rest = w.rest ++ name_of t ∷ [];
        path =
            get_path_next t (p ∷ above) (join b'.' (w.first ∷ w.rest)) w.path plain.0.0
              (join-ne w.first w.rest w.filled)
            ∙ ap ok (sym (join-snoc w.first w.rest (name_of t)));
        leads =
            get_at-snoc (w.first ∷ w.rest) (name_of t) root p t w.leads
              (get_child-IsEntry (name_of t) t p h);
        filled = w.filled;
        undotted = (w.undotted.0, AllHaveNo-snoc w.rest (name_of t) w.undotted.1 plain.0.1);
      }

  -- A node stands below the root of a tree, whose name is empty, and neither its name nor that of a
  -- node between them is empty or holds a dot: the node has a path, and get_by_path finds it there.
  pub get_by_path-get_path :
      (root t : TreeNode D) (parents : List (TreeNode D))
      → Stands root t parents
      → ArePlain (t ∷ parents)
      → (p : Str) × (get_path (t ∷ parents) ≡ ok p) × (get_by_path p root ≡ some t)
  unfolding get_by_path
  get_by_path-get_path root t parents s plain =
      let w = way root t parents s plain in
      (
        join b'.' (w.first ∷ w.rest),
        w.path,
        ap (λ ns. get_at ns root) (split-join b'.' w.first w.rest w.undotted.0 w.undotted.1)
            ∙ w.leads,
      )
