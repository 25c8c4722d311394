-- ===== src/Tests/TreeManager.antt =====
-- A tree with a car and its engine, and a boat.
use js_ng.Prelude.{ℕ, ◌≡◌, refl, none, some, [], ◌∷◌, Str, str, str_eq, List}
use js_ng.Prelude.Result.{ok}
use js_ng.TreeManager.{TreeNode, node, child, no_children, get_path, get_by_path}
use js_ng.TreeManager.Paths.{Stands, root_child, deeper, here, further, get_by_path-get_path}

abbrev leaf : List ℕ → ℕ → TreeNode ℕ
leaf n d = node n (some d) no_children

abbrev car : TreeNode ℕ
car = node (str "car") (some 1) (child (str "engine") (leaf (str "engine") 2) no_children)

abbrev garage : TreeNode ℕ
garage = node [] none (child (str "boat") (leaf (str "boat") 3) (child (str "car") car no_children))

engine_there : Stands garage (leaf (str "engine") 2) (car ∷ garage ∷ [])
unfolding str_eq
engine_there = deeper (root_child (further refl here)) here

get_by_path-get_path_example :
    (p : Str) × (get_path (leaf (str "engine") 2 ∷ car ∷ garage ∷ []) ≡ ok p)
    × (get_by_path p garage ≡ some (leaf (str "engine") 2))
unfolding str_eq
get_by_path-get_path_example =
    get_by_path-get_path garage (leaf (str "engine") 2) (car ∷ garage ∷ []) engine_there (
      (refl, (refl, (refl, (refl, (refl, (refl, (refl, tt))))))),
      ((refl, (refl, (refl, (refl, tt)))), refl),
    )
