-- ===== src/TreeManager/Search.antt =====
-- Searching a tree is filtering the list of its nodes.
use mathlib.Core.Path.{ap₂}
use js_ng.Prelude.{
  ◌≡◌, refl, sym, ◌∙◌, Bool, not, ◌&&◌, List, [], ◌∷◌, ◌++◌, arith, ◌==◌, str_eq, if◌then◌else◌,
}
use js_ng.TreeManager.{
  TreeNode, Children, node, child, no_children, name_of, search_custom, search_children,
}

-- The elements that pass a test, in order.
unfoldable pub keep {ℓ} : {A : Type ℓ} → (A → Bool) → List A → List A
keep f [] = []
keep f (x ∷ xs) = if f x then x ∷ keep f xs else keep f xs

keep-append {ℓ} :
    {A : Type ℓ} (f : A → Bool) (xs ys : List A) → keep f (xs ++ ys) ≡ keep f xs ++ keep f ys
unfolding keep
keep-append f [] ys = refl
keep-append f (x ∷ xs) ys = ground (arith, keep-append f xs ys)

module _ {D : Type 0} where
  -- All nodes of the tree, the children before their parent.
  mutual
    pub nodes : TreeNode D → List (TreeNode D)
    nodes (node n d cs) = nodes_below cs ++ node n d cs ∷ []

    nodes_below : Children D → List (TreeNode D)
    nodes_below no_children = []
    nodes_below (child n t cs) = nodes t ++ nodes_below cs

  abbrev passes : (TreeNode D → Bool) → TreeNode D → Bool
  passes f x = not (name_of x == []) && f x

  mutual
    unfolding search_custom nodes keep

    search-nodes :
        (f : TreeNode D → Bool) (t : TreeNode D) → search_custom f t ≡ keep (passes f) (nodes t)
    search-nodes f (node n d cs) =
        rw (search_children-nodes f cs)
          (sym (keep-append (passes f) (nodes_below cs) (node n d cs ∷ [])))

    search_children-nodes :
        (f : TreeNode D → Bool) (cs : Children D)
        → search_children f cs ≡ keep (passes f) (nodes_below cs)
    search_children-nodes f no_children = refl
    search_children-nodes f (child n t cs) =
        ap₂ (λ xs ys. xs ++ ys) (search-nodes f t) (search_children-nodes f cs)
        ∙ sym (keep-append (passes f) (nodes t) (nodes_below cs))

  -- A search finds exactly the nodes of the tree that have a name and pass the test, children before
  -- their parent, each as often as it stands in the tree.
  pub search_custom-nodes :
      (f : TreeNode D → Bool) (t : TreeNode D)
      → search_custom f t ≡ keep (λ x. not (name_of x == []) && f x) (nodes t)
  search_custom-nodes f t = search-nodes f t
