-- ===== src/TreeManager/Laws.antt =====
-- What adding and removing a node does to the nodes at every path.
use js_ng.Prelude.{
  ◌≡◌, ◌≢◌, refl, ap, sym, ◌∙◌, Bool, true, false, Option, none, some, List, [], ◌∷◌, arith, ◌==◌,
  str_eq, ==_refl, ==→eq, if◌then◌else◌, Str, ◌&&◌, Option-cases, inl, inr, ◌⊎◌, Bool-cases,
}
use mathlib.Core.Path.{subst}
use js_ng.Prelude.Result.{Result, ok, err, name_exists_error}
use js_ng.TreeManager.{
  TreeNode, Children, node, child, no_children, name_of, data_of, find_child, put_child, drop_child,
  get_child_by_name, with_child, add_child, remove_child_by_name, child_or_new, below, get_at,
  add_at, remove_at,
}

-- The place `q` is that of `p` or below it.
unfoldable pub is_below : List Str → List Str → Bool
is_below [] q = true
is_below (n ∷ p) [] = false
is_below (n ∷ p) (m ∷ q) = n == m && is_below p q

module _ {D : Type 0} where
  -- The data of the node at a place, if there is one.
  abbrev pub data_at : List Str → TreeNode D → Option (Option D)
  data_at q t = elim (get_at q t) [ none ↦ none | some c ↦ some (data_of c) ]

  find-put :
      (j n : Str) (c : TreeNode D) (cs : Children D)
      → find_child j (put_child n c cs) ≡ (if j == n then some c else find_child j cs)
  unfolding find_child put_child
  find-put j n c no_children = refl
  find-put j n c (child m u cs) = ground (arith, find-put j n c cs)

  find-drop :
      (j n : Str) (cs : Children D)
      → find_child j (drop_child n cs) ≡ (if j == n then none else find_child j cs)
  unfolding find_child drop_child
  find-drop j n no_children = ground arith
  find-drop j n (child m u cs) = ground (arith, find-drop j n cs)

  child-with :
      (j n : Str) (c t : TreeNode D)
      → get_child_by_name j (with_child n c t) ≡ (if j == n then some c else get_child_by_name j t)
  unfolding get_child_by_name
  child-with j n c (node m d cs) = find-put j n c cs

  child-remove :
      (j n : Str) (t : TreeNode D)
      → get_child_by_name j (remove_child_by_name n t).1
        ≡ (if j == n then none else get_child_by_name j t)
  unfolding get_child_by_name remove_child_by_name
  child-remove j n (node m d cs) = ground (arith, find-drop j n cs)

  data-with : (n : Str) (c t : TreeNode D) → data_of (with_child n c t) ≡ data_of t
  data-with n c (node m d cs) = refl

  data-remove : (n : Str) (t : TreeNode D) → data_of (remove_child_by_name n t).1 ≡ data_of t
  unfolding remove_child_by_name
  data-remove n (node m d cs) = ground arith

  get_at-with :
      (j n : Str) (q : List Str) (c t : TreeNode D)
      → get_at (j ∷ q) (with_child n c t) ≡ (if j == n then get_at q c else get_at (j ∷ q) t)
  unfolding get_at
  get_at-with j n q c t = ground (arith, child-with j n c t)

  get_at-child_or_new :
      (n m : Str) (q : List Str) (t : TreeNode D)
      → get_at (m ∷ q) (child_or_new n t) ≡ get_at (n ∷ m ∷ q) t
  unfolding get_at child_or_new get_child_by_name find_child
  get_at-child_or_new n m q (node k d cs) = ground arith

  data_at-child_or_new :
      (n : Str) (q : List Str) (x : Option D) (t : TreeNode D)
      → data_at (n ∷ q) t ≡ some x
      → data_at q (child_or_new n t) ≡ some x
  unfolding get_at child_or_new
  data_at-child_or_new n q x t h = ground arith

  -- Adding a child: the two cases.
  add_child_lem :
      (n : Str) (d : Option D) (t : TreeNode D)
      → (get_child_by_name n t ≡ none)
          × (add_child (node n d no_children) t
              ≡ (ok (node n d no_children), with_child n (node n d no_children) t))
        ⊎ (add_child (node n d no_children) t ≡ (err name_exists_error, t))
  unfolding add_child
  add_child_lem n d t = elim (Option-cases (get_child_by_name n t)) [
    | inl e ↦ inl (e, rw (e, add_child))
    | inr (c, e) ↦ inr (rw (e, add_child))
  ]

  below_lem :
      (n : Str) (r : Result (TreeNode D) × TreeNode D) (t c : TreeNode D)
      → (below n r t).0 ≡ ok c
      → ((n == []) ≡ false) × (r.0 ≡ ok c) × ((below n r t).1 ≡ with_child n r.1 t)
  unfolding below
  below_lem n (r, u) t c h = ground arith

  -- A node that was added is found at its path, with its data and no children; nothing was there.
  pub get_at-add_at :
      (p : List Str) (d : Option D) (t c : TreeNode D)
      → (add_at p d t).0 ≡ ok c
      → (get_at p t ≡ none)
        × (get_at p (add_at p d t).1 ≡ some c)
        × (c ≡ node (name_of c) d no_children)
  unfolding add_at get_at
  get_at-add_at [] d t c h = cc
  get_at-add_at (n ∷ []) d t c h = elim (add_child_lem n d t) [
    | inl (e, f) ↦
        let same : node n d no_children ≡ c = cc (h, f) in
        (
          rw (e, get_at),
          rw (f, get_at-with n n [] (node n d no_children) t, ==_refl n)
              (unfold get_at in ap some same),
          subst (λ x. x ≡ node (name_of x) d no_children) same refl,
        )
    | inr f ↦ cc (h, f)
  ]
  get_at-add_at (n ∷ m ∷ ns) d t c h =
      let (name, made, after) = below_lem n (add_at (m ∷ ns) d (child_or_new n t)) t c h in
      let (free, found, is_leaf) = get_at-add_at (m ∷ ns) d (child_or_new n t) c made in
      (
        sym (get_at-child_or_new n m ns t) ∙ free,
        rw (after, get_at-with n n (m ∷ ns) (add_at (m ∷ ns) d (child_or_new n t)).1 t, ==_refl n)
            found,
        is_leaf,
      )

  data_at-with_lem :
      (j n : Str) (q : List Str) (c t : TreeNode D)
      → data_at (j ∷ q) (with_child n c t) ≡ (if j == n then data_at q c else data_at (j ∷ q) t)
  data_at-with_lem j n q c t = ground (arith, get_at-with j n q c t)

  -- What a place shows after a child was put back, if the child shows it.
  data_at-with :
      (n : Str) (q : List Str) (x : Option D) (c t : TreeNode D)
      → data_at q t ≡ some x
      → ((r : List Str) → data_at (n ∷ r) t ≡ some x → data_at r c ≡ some x)
      → data_at q (with_child n c t) ≡ some x
  data_at-with n [] x c (node m d cs) h keep = unfold get_at in (unfold get_at in h)
  data_at-with n (j ∷ q) x c t h keep = data_at-with_lem j n q c t ∙ elim (Bool-cases (j == n)) [
    | inl e ↦ rw e (keep q (subst (λ k. data_at (k ∷ q) t ≡ some x) (==→eq j n e) h))
    | inr e ↦ rw e h
  ]

  data_at-none :
      (n : Str) (q : List Str) (x : Option D) (t : TreeNode D)
      → get_child_by_name n t ≡ none
      → data_at (n ∷ q) t ≢ some x
  unfolding get_at
  data_at-none n q x t e h = ground (arith, e, h)

  -- Adding a node, successful or not, leaves every node that was there with its data.
  pub data_at-add_at :
      (p q : List Str) (d x : Option D) (t : TreeNode D)
      → data_at q t ≡ some x
      → data_at q (add_at p d t).1 ≡ some x
  unfolding add_at below
  data_at-add_at [] q d x t h = h
  data_at-add_at (n ∷ []) q d x t h = elim (add_child_lem n d t) [
    | inl (e, f) ↦
        rw f
          (data_at-with n q x (node n d no_children) t h (λ r k. absurd (data_at-none n r x t e k)))
    | inr f ↦ rw f h
  ]
  data_at-add_at (n ∷ m ∷ ns) q d x t h =
      let r = add_at (m ∷ ns) d (child_or_new n t) in
      let ih = λ (q' : List Str) (k : data_at (n ∷ q') t ≡ some x).
        data_at-add_at (m ∷ ns) q' d x (child_or_new n t) (data_at-child_or_new n q' x t k) in
      elim (Bool-cases (n == [])) [
        | inl e ↦ rw (e, below) h
        | inr e ↦ rw (e, below) (data_at-with n q x r.1 t h ih)
      ]

  get_at-some :
      (n : Str) (q : List Str) (c t : TreeNode D)
      → get_child_by_name n t ≡ some c
      → get_at q c ≡ get_at (n ∷ q) t
  unfolding get_at
  get_at-some n q c t e = rw (e, get_at)

  -- Removing a child of the root.
  remove_one :
      (n : Str) (q : List Str) (t : TreeNode D)
      → ((remove_child_by_name n t).0 ≡ get_at (n ∷ []) t)
        × (data_at q (remove_child_by_name n t).1
            ≡ (if is_below (n ∷ []) q then none else data_at q t))
  unfolding get_at get_child_by_name remove_child_by_name is_below
  remove_one n [] (node m d cs) = ground arith
  remove_one n (j ∷ q) (node m d cs) = ground (arith, find-drop j n cs)

  -- Nothing stands below a child that is not there.
  remove_none :
      (n : Str) (p q : List Str) (t : TreeNode D)
      → get_child_by_name n t ≡ none
      → (none ≡ get_at (n ∷ p) t)
        × (data_at q t ≡ (if is_below (n ∷ p) q then none else data_at q t))
  unfolding get_at is_below
  remove_none n p [] t e = ground (arith, e)
  remove_none n p (j ∷ q) t e = ground (arith, e)

  remove_some :
      (n : Str) (p q : List Str) (c c' t : TreeNode D)
      → get_child_by_name n t ≡ some c
      → ((r : List Str) → data_at r c' ≡ (if is_below p r then none else data_at r c))
      → data_at q (with_child n c' t) ≡ (if is_below (n ∷ p) q then none else data_at q t)
  remove_some n p [] c c' (node m d cs) e ih = unfold get_at is_below in refl
  remove_some n p (j ∷ q) c c' t e ih =
      data_at-with_lem j n q c' t ∙ unfold get_at is_below in ground (arith, e, ih q)

  -- Removing takes away the places below the path, the path with them, and no other; it returns the
  -- node that stood there.
  pub data_at-remove_at :
      (n : Str) (p q : List Str) (t : TreeNode D)
      → ((remove_at (n ∷ p) t).0 ≡ get_at (n ∷ p) t)
        × (data_at q (remove_at (n ∷ p) t).1 ≡ (if is_below (n ∷ p) q then none else data_at q t))
  unfolding remove_at
  data_at-remove_at n [] q t = remove_one n q t
  data_at-remove_at n (m ∷ p) q t = elim (Option-cases (get_child_by_name n t)) [
    | inl e ↦ rw (e, remove_at) (remove_none n (m ∷ p) q t e)
    | inr (c, e) ↦
        let c' = (remove_at (m ∷ p) c).1 in
        rw (e, remove_at)
          (
            (data_at-remove_at m p [] c).0 ∙ get_at-some n (m ∷ p) c t e,
            remove_some n (m ∷ p) q c c' t e (λ r. (data_at-remove_at m p r c).1),
          )
  ]
