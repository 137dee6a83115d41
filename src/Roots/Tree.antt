-- ===== src/Roots/Tree.antt =====
-- `Tree` of trinity/_utils/tree_root.py: which node has which parent, and each parent's children.
use trinity.Prelude.{
  Bool, true, false, Option, none, some, List, [], ◌∷◌, ◌++◌, ◌&&◌, not, elem, without,
}
use trinity.Prelude.Exec.{
  Exec, validation_error, key_error, pure, gets, require, modify, raise_if, ◌>>=◌, ◌>>◌,
}
use trinity.Prelude.Dict
use trinity.Prelude.Dict.{Dict}

pub record Tree (K : Type 0) : Type 0 where
  pub parents : Dict K K
  pub children : Dict K (List K)

abbrev pub empty_tree : {K : Type 0} → Tree K
empty_tree = record { parents = []; children = [] }

-- `d.get(k, tuple())`
abbrev pub or_nil : {A : Type 0} → Option (List A) → List A
or_nil none = []
or_nil (some xs) = xs

abbrev pub is_nil : {A : Type 0} → List A → Bool
is_nil [] = true
is_nil (x ∷ xs) = false

module _ {K : Type 0} (dec : Discrete K) where
  unfoldable pub has_node : Tree K → K → Bool
  has_node t node_id = Dict.has dec t.parents node_id

  unfoldable pub has_parent : Tree K → K → Bool
  has_parent t node_id = elim (Dict.get dec t.parents node_id) [
    | none ↦ false
    | some parent ↦ has_node t parent
  ]

  unfoldable pub children_of : Tree K → K → List K
  children_of t node_id = or_nil (Dict.get dec t.children node_id)

  unfoldable pub parent_of : K → Exec (Tree K) K
  parent_of node_id = do
    parent ← λ t. require key_error (Dict.get dec t.parents node_id) t
    unlisted ← gets (λ t. has_node t parent && not (elem dec node_id (children_of t parent)))
    raise_if validation_error unlisted
    pure parent

  unfoldable pub add_node : K → K → Exec (Tree K) Unit
  add_node node_id parent_id = do
    present ← gets (λ t. has_node t node_id)
    raise_if validation_error present
    modify (λ t. record t { parents = Dict.put dec t.parents node_id parent_id })
    modify (λ t. record t {
      children = Dict.put dec t.children parent_id (children_of t parent_id ++ node_id ∷ []);
    })

  -- The parent's entry, or `del` of it where no child is left.
  unfoldable pub set_children : K → List K → Exec (Tree K) Unit
  set_children parent_id [] = do
    _ ← λ t. require key_error (Dict.get dec t.children parent_id) t
    modify (λ t. record t { children = Dict.del dec t.children parent_id })
  set_children parent_id (c ∷ cs) =
      modify (λ t. record t { children = Dict.put dec t.children parent_id (c ∷ cs) })

  unfoldable pub prune_node : K → Exec (Tree K) Unit
  prune_node node_id = do
    attached ← gets (λ t. has_parent t node_id)
    raise_if validation_error attached
    parent_id ← λ t. require key_error (Dict.get dec t.parents node_id) t
    modify (λ t. record t { parents = Dict.del dec t.parents node_id })
    rest ← gets (λ t. without dec node_id (children_of t parent_id))
    set_children parent_id rest
