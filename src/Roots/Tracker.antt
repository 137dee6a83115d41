-- ===== src/Roots/Tracker.antt =====
-- `RootTracker` of trinity/_utils/tree_root.py. A chain of extensions climbs the tree at every step,
-- so one more than the number of nodes is fuel enough for `_get_true_root`.
use trinity.Prelude.{ℕ, suc, ◌+◌, none, some, List, [], ◌∷◌, not, leb, length, if◌then◌else◌}
use trinity.Prelude.Exec.{
  Exec, err, validation_error, key_error, pure, raise, gets, require, modify, raise_if, for_each,
  zoom, ◌>>=◌, ◌>>◌,
}
use trinity.Prelude.Int.{ℤ, pos, is_zero, ◌+ℤ◌, ◌-ℤ◌}
use trinity.Prelude.Dict
use trinity.Prelude.Dict.{Dict, size}
use trinity.Roots.Tree.{Tree, empty_tree, has_parent, children_of, add_node, prune_node}
use trinity.Roots.Object.{Ref, Heap, new_root, extend, node_id, depth_offset, prune_to, same}

pub record RootTracker (K : Type 0) : Type 0 where
  pub tree : Tree K
  pub roots : Dict K Ref
  pub original_depth_to_root : Dict K ℕ
  pub cache : Dict K (K × ℤ)
  pub heap : Heap K

unfoldable pub empty_tracker : {K : Type 0} → RootTracker K
empty_tracker = record {
  tree = empty_tree;
  roots = [];
  original_depth_to_root = [];
  cache = [];
  heap = record { cell = λ a. none; next = 0 };
}

module _ {K : Type 0} (dec : Discrete K) where
  abbrev pub fuel_for : RootTracker K → ℕ
  fuel_for t = suc (size t.tree.parents)

  abbrev pub on_tree : {A : Type 0} → Exec (Tree K) A → Exec (RootTracker K) A
  on_tree m = zoom (λ t. t.tree) (λ tree t. record t { tree = tree }) m

  abbrev pub on_heap : {A : Type 0} → Exec (Heap K) A → Exec (RootTracker K) A
  on_heap m = zoom (λ t. t.heap) (λ heap t. record t { heap = heap }) m

  -- `self._roots[n]`
  abbrev pub root_of : K → Exec (RootTracker K) Ref
  root_of n t = require key_error (Dict.get dec t.roots n) t

  -- `self._original_depth_to_root[n]`
  abbrev pub original_depth_of : K → Exec (RootTracker K) ℕ
  original_depth_of n t = require key_error (Dict.get dec t.original_depth_to_root n) t

  unfoldable pub get_children : K → RootTracker K → List K
  get_children n t = children_of dec t.tree n

  -- The parent of a new node is there already: its root is shared by the first child.
  unfoldable pub attach : K → K → Exec (RootTracker K) (Ref × ℕ)
  attach n parent_id t =
      (do
        -- `except KeyError` raises a `ValidationError`
        parent_root ← λ t. require validation_error (Dict.get dec t.roots parent_id) t
        siblings ← gets (λ t. children_of dec t.tree parent_id)
        node_root ←
            if leb 2 (length siblings)
            then (do
              node_root ← on_heap (new_root n)
              on_heap (extend node_root parent_root (pos 0))
              pure node_root)
            else pure parent_root
        depth ← original_depth_of parent_id
        pure (node_root, depth + 1))
        t

  unfoldable pub get_new_root : K → K → Exec (RootTracker K) (Ref × ℕ)
  get_new_root n parent_id = do
    attached ← gets (λ t. has_parent dec t.tree n)
    if attached
        then attach n parent_id
        else do node_root ← on_heap (new_root n); pure (node_root, 0)

  unfoldable pub link_child : Ref → ℕ → K → Exec (RootTracker K) Unit
  link_child parent_root parent_original_depth child = do
    child_root ← root_of child
    fuel ← gets (λ t. fuel_for t)
    offset ← on_heap (depth_offset fuel child_root)
    actual ← original_depth_of child
    raise_if validation_error (not (is_zero (offset +ℤ pos actual)))
    on_heap (extend child_root parent_root (pos (parent_original_depth + 1) -ℤ pos actual))

  unfoldable pub link_children : Ref → ℕ → List K → Exec (RootTracker K) Unit
  link_children parent_root parent_original_depth children =
      for_each (link_child parent_root parent_original_depth) children

  unfoldable pub add : K → K → Exec (RootTracker K) Unit
  add n parent_id = do
    modify (λ t. record t { cache = [] })
    on_tree (add_node dec n parent_id)
    (node_root, original_depth) ← get_new_root n parent_id
    modify (λ t. record t { roots = Dict.put dec t.roots n node_root })
    modify (λ t. record t {
      original_depth_to_root = Dict.put dec t.original_depth_to_root n original_depth;
    })
    children ← gets (λ t. children_of dec t.tree n)
    link_children node_root original_depth children

  -- The last branch of `get_root`, on a node that is in `_roots` and not in `_cache`.
  unfoldable pub look_up_root : K → Exec (RootTracker K) (K × ℤ)
  look_up_root n = do
    root ← root_of n
    original_depth ← original_depth_of n
    fuel ← gets (λ t. fuel_for t)
    root_node_id ← on_heap (node_id fuel root)
    offset ← on_heap (depth_offset fuel root)
    attached ← gets (λ t. has_parent dec t.tree root_node_id)
    raise_if validation_error attached
    modify (λ t. record t {
      cache = Dict.put dec t.cache n (root_node_id, pos original_depth +ℤ offset);
    })
    pure (root_node_id, pos original_depth +ℤ offset)

  -- The entry of the cached root is dropped, so the recursive call is a look-up.
  unfoldable pub stale : K → Exec (RootTracker K) (K × ℤ)
  stale root_node_id = do
    _ ← λ t. require key_error (Dict.get dec t.cache root_node_id) t
    modify (λ t. record t { cache = Dict.del dec t.cache root_node_id })
    known ← gets (λ t. Dict.has dec t.roots root_node_id)
    raise_if validation_error (not known)
    _ ← look_up_root root_node_id
    raise validation_error

  unfoldable pub get_cached : K → K × ℤ → Exec (RootTracker K) (K × ℤ)
  get_cached n (root_node_id, root_depth) = do
    attached ← gets (λ t. has_parent dec t.tree root_node_id)
    if attached then stale root_node_id else pure (root_node_id, root_depth)

  unfoldable pub get_root : K → Exec (RootTracker K) (K × ℤ)
  get_root n t = elim (Dict.get dec t.roots n) [
    | none ↦ (err validation_error, t)
    | some _ ↦ elim (Dict.get dec t.cache n) [
      | some cached ↦ get_cached n cached t
      | none ↦ look_up_root n t
    ]
  ]

  -- `tuple((child_node, self._roots[child_node]) for child_node in child_nodes)`
  unfoldable pub pairs : List K → Exec (RootTracker K) (List (K × Ref))
  pairs [] = pure []
  pairs (c ∷ cs) = do root ← root_of c; rest ← pairs cs; pure ((c, root) ∷ rest)

  unfoldable pub check_pruned : K × Ref → Exec (RootTracker K) Unit
  check_pruned (child_node, child_root) = do
    fuel ← gets (λ t. fuel_for t)
    own ← on_heap (node_id fuel child_root)
    raise_if validation_error (not (same dec child_node own))

  unfoldable pub prune : K → Exec (RootTracker K) Unit
  prune prune_off_id = do
    deep ← gets (λ t. Dict.has dec t.original_depth_to_root prune_off_id)
    raise_if validation_error (not deep)
    rooted ← gets (λ t. Dict.has dec t.roots prune_off_id)
    raise_if validation_error (not rooted)
    modify (λ t. record t { cache = [] })
    root_to_prune ← root_of prune_off_id
    fuel ← gets (λ t. fuel_for t)
    top ← on_heap (node_id fuel root_to_prune)
    raise_if validation_error (not (same dec top prune_off_id))
    attached ← gets (λ t. has_parent dec t.tree top)
    raise_if validation_error attached
    child_nodes ← gets (λ t. children_of dec t.tree prune_off_id)
    child_pairs ← pairs child_nodes
    on_heap (prune_to dec fuel root_to_prune child_pairs)
    for_each check_pruned child_pairs
    on_tree (prune_node dec prune_off_id)
    modify (λ t. record t {
      original_depth_to_root = Dict.del dec t.original_depth_to_root prune_off_id;
    })
    modify (λ t. record t { roots = Dict.del dec t.roots prune_off_id })
