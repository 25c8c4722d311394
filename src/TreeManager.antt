-- ===== src/TreeManager.antt =====
-- data/treemanager/treemanager.py: trees of named nodes, addressed by dotted paths.
pub mod Paths
pub mod Laws
pub mod Search
use js_ng.Prelude.{
  ℕ, zero, suc, ◌≡◌, refl, Bool, true, false, not, ◌&&◌, Option, none, some, List, [], ◌∷◌, ◌++◌,
  arith, ◌==◌, str_eq, Eq, if◌then◌else◌, Str, str, replicate,
}
use js_ng.Prelude.Result.{
  Result, ok, err, ◌>>=◌, name_exists_error, empty_name_error, root_remove_error, index_error,
  attribute_error,
}
use js_ng.Text.{split, replace_char}

-- A node with its name, its data (`none` for None) and its children by their names, in the order of
-- the dict. The link to the parent is the place in the tree.
mutual
  pub data TreeNode (D : Type 0) : Type 0 where
    node : Str → Option D → Children D → TreeNode D

  pub data Children (D : Type 0) : Type 0 where
    no_children : Children D
    child : Str → TreeNode D → Children D → Children D

module _ {D : Type 0} where
  abbrev pub name_of : TreeNode D → Str
  name_of (node n d cs) = n

  abbrev pub data_of : TreeNode D → Option D
  data_of (node n d cs) = d

  abbrev pub children_of : TreeNode D → Children D
  children_of (node n d cs) = cs

  unfoldable pub find_child : Str → Children D → Option (TreeNode D)
  find_child n no_children = none
  find_child n (child m t cs) = if n == m then some t else find_child n cs

  -- `children[n] = t`
  unfoldable pub put_child : Str → TreeNode D → Children D → Children D
  put_child n t no_children = child n t no_children
  put_child n t (child m u cs) = if n == m then child m t cs else child m u (put_child n t cs)

  -- `del children[n]`
  unfoldable pub drop_child : Str → Children D → Children D
  drop_child n no_children = no_children
  drop_child n (child m u cs) =
      let rest = drop_child n cs in if n == m then rest else child m u rest

  -- TreeNode.get_child_by_name
  unfoldable pub get_child_by_name : Str → TreeNode D → Option (TreeNode D)
  unfolding find_child
  get_child_by_name n (node m d cs) = find_child n cs

  abbrev pub with_child : Str → TreeNode D → TreeNode D → TreeNode D
  with_child n c (node m d cs) = node m d (put_child n c cs)

  -- TreeNode.add_child: the node that was added, and the parent afterwards
  unfoldable pub add_child : TreeNode D → TreeNode D → Result (TreeNode D) × TreeNode D
  unfolding get_child_by_name put_child
  add_child c t = elim (get_child_by_name (name_of c) t) [
    | some _ ↦ (err name_exists_error, t)
    | none ↦ (ok c, with_child (name_of c) c t)
  ]

  -- TreeNode.remove_child_by_name, and TreeNode.remove_child by the name of the child
  unfoldable pub remove_child_by_name : Str → TreeNode D → Option (TreeNode D) × TreeNode D
  unfolding find_child drop_child
  remove_child_by_name n (node m d cs) = elim (find_child n cs) [
    | none ↦ (none, node m d cs)
    | some c ↦ (some c, node m d (drop_child n cs))
  ]

  -- TreeNode.search_custom: children first.
  unfoldable mutual
    pub search_custom : (TreeNode D → Bool) → TreeNode D → List (TreeNode D)
    search_custom f (node n d cs) =
        search_children f cs ++ (if not (n == []) && f (node n d cs) then node n d cs ∷ [] else [])

    pub search_children : (TreeNode D → Bool) → Children D → List (TreeNode D)
    search_children f no_children = []
    search_children f (child n t cs) = search_custom f t ++ search_children f cs

  -- TreeNode.search_by_name
  unfoldable pub search_by_name : Str → TreeNode D → List (TreeNode D)
  unfolding search_custom
  search_by_name n t = search_custom (λ x. name_of x == n) t

  -- TreeNode.search_by_data
  unfoldable pub search_by_data :
      (Option D → Option D → Bool) → Option D → TreeNode D → List (TreeNode D)
  unfolding search_custom
  search_by_data same d t = search_custom (λ x. same (data_of x) d) t

  -- Tree()
  abbrev pub new_tree : TreeNode D
  new_tree = node [] none no_children

  -- Tree.get_by_path, from the names of the path
  unfoldable pub get_at : List Str → TreeNode D → Option (TreeNode D)
  get_at [] t = some t
  get_at (n ∷ ns) t = elim (get_child_by_name n t) [ none ↦ none | some c ↦ get_at ns c ]

  unfoldable pub get_by_path : Str → TreeNode D → Option (TreeNode D)
  unfolding split get_at
  get_by_path path t = get_at (split b'.' path) t

  -- The next node on the way to a new one: the child of that name, or a new one with no data.
  unfoldable pub child_or_new : Str → TreeNode D → TreeNode D
  child_or_new n t = elim (get_child_by_name n t) [ none ↦ node n none no_children | some c ↦ c ]

  -- What the rest of the path did to that node, put back under its name, unless the name is empty.
  unfoldable pub below :
      Str → Result (TreeNode D) × TreeNode D → TreeNode D → Result (TreeNode D) × TreeNode D
  below n (r, c) t = if n == [] then (err empty_name_error, t) else (r, with_child n c t)

  -- Tree.add_node_by_path, from the names of the path: the new node, and the tree, which keeps the
  -- intermediate nodes that were created before an exception.
  unfoldable pub add_at : List Str → Option D → TreeNode D → Result (TreeNode D) × TreeNode D
  add_at [] d t = (err index_error, t)
  add_at (n ∷ []) d t = add_child (node n d no_children) t
  add_at (n ∷ m ∷ ns) d t = below n (add_at (m ∷ ns) d (child_or_new n t)) t

  unfoldable pub add_node_by_path : Str → Option D → TreeNode D → Result (TreeNode D) × TreeNode D
  unfolding split add_at
  add_node_by_path path d t = add_at (split b'.' path) d t

  -- Tree.remove_node_by_path, from the names of the path: the removed node, and the tree.
  unfoldable pub remove_at : List Str → TreeNode D → Option (TreeNode D) × TreeNode D
  remove_at [] t = (none, t)
  remove_at (n ∷ []) t = remove_child_by_name n t
  remove_at (n ∷ m ∷ ns) t = elim (get_child_by_name n t) [
    | none ↦ (none, t)
    | some c ↦ let (r, c') = remove_at (m ∷ ns) c in (r, with_child n c' t)
  ]

  unfoldable pub remove_node_by_path : Str → TreeNode D → Option (TreeNode D) × TreeNode D
  unfolding split remove_at
  remove_node_by_path path t = remove_at (split b'.' path) t

  -- Tree.remove_node, of the node at a place of the tree; the root has the empty place.
  unfoldable pub remove_node : List Str → TreeNode D → Result (TreeNode D)
  unfolding remove_at
  remove_node [] t = err root_remove_error
  remove_node (n ∷ ns) t = ok (remove_at (n ∷ ns) t).1

  -- TreeNode.__str__, where `show` is `str` of the data
  unfoldable pub string_repr : (Option D → Str) → TreeNode D → Str
  unfolding replace_char
  string_repr show (node n d cs) =
      if n == [] then str "dummy_root" else n ++ replace_char 10 (str "\\n") (show d)

  unfoldable mutual
    unfolding string_repr

    pub to_text : (Option D → Str) → ℕ → TreeNode D → Str
    to_text show k (node n d cs) =
        replicate k 9
        ++ (string_repr show (node n d cs) ++ (10 ∷ []))
        ++ children_text show (suc k) cs

    children_text : (Option D → Str) → ℕ → Children D → Str
    children_text show k no_children = []
    children_text show k (child n t cs) = to_text show k t ++ children_text show k cs

  -- TreeNode.get_path, of a node that its parent, the parent's parent and so on follow in the list; the
  -- parent of the last one is None.
  unfoldable pub get_path : List (TreeNode D) → Result Str
  get_path [] = err attribute_error
  get_path (t ∷ parents) =
      let above = get_path parents in
      if name_of t == []
      then ok []
      else (do p ← above; ok (if p == [] then name_of t else p ++ b'.' ∷ name_of t))
