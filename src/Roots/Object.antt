-- ===== src/Roots/Object.antt =====
-- `TreeRoot` of trinity/_utils/tree_root.py. The objects are mutable and shared between the nodes
-- of a branch, so they live on a heap, and a reference is the number of its allocation.
use trinity.Prelude.{
  ℕ, zero, suc, ◌==◌, Bool, true, false, Option, none, some, List, not, if◌then◌else◌, ite,
}
use trinity.Prelude.Exec.{
  Exec, Result, ok, err, validation_error, dangling, diverges, pure, require, modify, raise_if,
  for_each, ◌>>=◌, ◌>>◌,
}
use trinity.Prelude.Int.{ℤ, pos, equal_ℤ, ◌+ℤ◌, ◌-ℤ◌}

abbrev pub Ref : Type 0
Ref = ℕ

-- `depth_extension` counts only where `extends_root` is set; it starts as 0 for `None`.
pub record TreeRoot (K : Type 0) : Type 0 where
  pub root_id : K
  pub depth_offset : ℤ
  pub extends_root : Option Ref
  pub depth_extension : ℤ

pub record Heap (K : Type 0) : Type 0 where
  pub cell : Ref → Option (TreeRoot K)
  pub next : Ref

abbrev pub is_extension : {K : Type 0} → TreeRoot K → Bool
is_extension o = elim o.extends_root [ none ↦ false | some _ ↦ true ]

module _ {K : Type 0} where
  abbrev pub update : (Ref → Option (TreeRoot K)) → Ref → TreeRoot K → Ref → Option (TreeRoot K)
  update cell a o b = if b == a then some o else cell b

  abbrev pub load : Ref → Exec (Heap K) (TreeRoot K)
  load a h = require dangling (h.cell a) h

  abbrev pub save : Ref → TreeRoot K → Exec (Heap K) Unit
  save a o = modify (λ h. record h { cell = update h.cell a o })

  -- `TreeRoot(root_node_id)`
  unfoldable pub new_root : K → Exec (Heap K) Ref
  new_root root_node_id h = (
    ok h.next,
    record {
      cell = update h.cell h.next (record {
        root_id = root_node_id;
        depth_offset = pos 0;
        extends_root = none;
        depth_extension = pos 0;
      });
      next = suc h.next;
    },
  )

  unfoldable pub extend : Ref → Ref → ℤ → Exec (Heap K) Unit
  extend a tree_root more_depth = do
    o ← load a
    raise_if validation_error (is_extension o)
    save a (record o { extends_root = some tree_root; depth_extension = more_depth })

  -- The loop of `_get_true_root`, on fuel; what it reads does not change.
  unfoldable pub true_root_loop : ℕ → Ref → ℤ → Heap K → Result (Ref × ℤ)
  true_root_loop zero candidate depth h = err diverges
  true_root_loop (suc fuel) candidate depth h = elim (h.cell candidate) [
    | none ↦ err dangling
    | some o ↦ elim o.extends_root [
      | none ↦ ok (candidate, depth)
      | some parent ↦ true_root_loop fuel parent (depth +ℤ o.depth_extension) h
    ]
  ]

  unfoldable pub get_true_root : ℕ → Ref → Exec (Heap K) (Ref × ℤ)
  get_true_root fuel a h = (true_root_loop fuel a (pos 0) h, h)

  unfoldable pub node_id : ℕ → Ref → Exec (Heap K) K
  node_id fuel a = do (true_root, _) ← get_true_root fuel a; o ← load true_root; pure o.root_id

  unfoldable pub depth_offset : ℕ → Ref → Exec (Heap K) ℤ
  depth_offset fuel a = do
    (true_root, extension) ← get_true_root fuel a
    o ← load true_root
    pure (o.depth_offset +ℤ extension)

module _ {K : Type 0} (dec : Discrete K) where
  abbrev pub same : K → K → Bool
  same a b = ite (dec a b) true false

  -- The object whose extension is pruned becomes a root of its own.
  unfoldable pub prune_extension : Ref → TreeRoot K → Ref → K → ℤ → Exec (Heap K) Unit
  prune_extension a o target to_node old_depth_offset = do
    extended ← load target
    raise_if validation_error (is_extension extended)
    raise_if validation_error (not (same to_node o.root_id))
    save a (record o {
      extends_root = none;
      depth_offset = old_depth_offset -ℤ pos 1 +ℤ o.depth_extension;
    })

  -- The pruned root itself moves down to the child.
  unfoldable pub prune_root : Ref → TreeRoot K → K → K → ℤ → Exec (Heap K) Unit
  prune_root a o from_node to_node old_depth_offset = do
    raise_if validation_error (not (same from_node o.root_id))
    raise_if validation_error (not (equal_ℤ old_depth_offset o.depth_offset))
    save a (record o { depth_offset = o.depth_offset -ℤ pos 1; root_id = to_node })

  -- `_prune`
  unfoldable pub prune_one : Ref → K → K → ℤ → Exec (Heap K) Unit
  prune_one a from_node to_node old_depth_offset = do
    o ← load a
    elim o.extends_root [
      | none ↦ prune_root a o from_node to_node old_depth_offset
      | some target ↦ prune_extension a o target to_node old_depth_offset
    ]

  -- The first loop of `prune_to`, for one child.
  unfoldable pub check_child : Ref → K × Ref → Exec (Heap K) Unit
  check_child a (child_id, child_root) = do
    o ← load child_root
    elim o.extends_root [
      | none ↦ raise_if validation_error (not (child_root == a))
      | some target ↦ do
        raise_if validation_error (not (same child_id o.root_id))
        raise_if validation_error (not (target == a))
    ]

  unfoldable pub prune_to : ℕ → Ref → List (K × Ref) → Exec (Heap K) Unit
  prune_to fuel a child_pairs = do
    o ← load a
    raise_if validation_error (is_extension o)
    for_each (check_child a) child_pairs
    prune_off_id ← node_id fuel a
    old_depth_offset ← depth_offset fuel a
    for_each (λ pair. prune_one pair.1 prune_off_id pair.0 old_depth_offset) child_pairs
