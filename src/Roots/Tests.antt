-- ===== src/Roots/Tests.antt =====
-- Runs of the root tracker, and its theorems at concrete inputs.
use trinity.Prelude.{
  ℕ, ◌≡◌, ◌⊎◌, some, some_inj, ap, ◌∙◌, ◌≢◌, refl, none, [], arith, ℕ_discrete, some-ne-none,
}
use trinity.Prelude.Exec.{ok, err, validation_error, for_each}
use trinity.Prelude.Int.{pos, ◌+ℤ◌, ◌-ℤ◌}
use trinity.Prelude.Dict.{get, put, del, has}
use trinity.Roots.Tree.{
  add_node, prune_node, set_children, parent_of, has_parent, has_node, children_of,
}
use trinity.Roots.Object.{
  new_root, extend, true_root_loop, get_true_root, node_id, depth_offset, prune_to, prune_one,
  prune_root, prune_extension, check_child,
}
use trinity.Roots.Tracker.{
  RootTracker, empty_tracker, add, get_root, get_new_root, attach, link_child, link_children,
  look_up_root, stale, get_cached, prune, pairs, check_pruned, get_children,
}
use trinity.Roots.Walk.{RootOf, RootOf-node}
use trinity.Roots.Invariant.{IsTracker}
use trinity.Roots.Growth.{Attachable}
use trinity.Roots.Lookup
use trinity.Roots.Addition
use trinity.Roots.PruneRoot

program : Unit {0}
unfolding get put del has for_each empty_tracker add get_root get_new_root attach link_child
    link_children look_up_root stale get_cached prune pairs check_pruned add_node prune_node
    set_children parent_of has_parent has_node children_of new_root extend true_root_loop
    get_true_root node_id depth_offset prune_to prune_one prune_root prune_extension check_child
    get_children ◌+ℤ◌ ◌-ℤ◌ ℕ_discrete
program = tt

abbrev zero_tracker : RootTracker ℕ
zero_tracker = empty_tracker

-- 2 hangs below 1 before 1 itself is added below 0, which is no node; 3 is a second child of 1.
abbrev one : RootTracker ℕ
one = (add ℕ_discrete 2 1 zero_tracker).1

abbrev two : RootTracker ℕ
two = (add ℕ_discrete 1 0 one).1

abbrev three : RootTracker ℕ
three = (add ℕ_discrete 3 1 two).1

depth_of_second_child : (get_root ℕ_discrete 3 three).0 ≡ ok (1, pos 1)
unfolding program
depth_of_second_child = refl

pruned : (get_root ℕ_discrete 3 (prune ℕ_discrete 1 three).1).0 ≡ ok (3, pos 0)
unfolding program
pruned = refl

pruned_root : (get_root ℕ_discrete 1 (prune ℕ_discrete 1 three).1).0 ≡ err validation_error
unfolding program
pruned_root = refl

prune_of_a_leaf : (prune ℕ_discrete 2 three).0 ≡ err validation_error
unfolding program
prune_of_a_leaf = refl

zero-IsTracker : IsTracker ℕ_discrete zero_tracker
unfolding program
zero-IsTracker = record {
  node = λ n p h. absurd (some-ne-none h refl);
  rooted = λ n a h. absurd (some-ne-none h refl);
  shares_once = λ m n p a h. absurd (some-ne-none h refl);
  acyclic = λ n p h. absurd (some-ne-none h refl);
  children_exact = λ c p h. cc;
  children_all = λ c p h. absurd (some-ne-none h refl);
  children_distinct = λ p. tt;
  cached = λ n r z h. absurd (some-ne-none h refl);
}

not_node :
    (p r : ℕ) (d : ℕ) (t : RootTracker ℕ)
    → get ℕ_discrete t.tree.parents p ≡ none
    → RootOf ℕ_discrete t.tree.parents p r d
    → ⊥
not_node p r d t out w =
    let (q, h) = RootOf-node ℕ_discrete t.tree.parents d p r w in some-ne-none h out

zero-Attachable : Attachable ℕ_discrete zero_tracker 2 1
unfolding program
zero-Attachable = record {
  fresh = refl;
  not_self = omega arith;
  not_below = λ r d w. absurd (not_node 1 r d zero_tracker refl w);
}

one-IsTracker : IsTracker ℕ_discrete one
one-IsTracker = Addition.add-IsTracker ℕ_discrete zero_tracker 2 1 zero-IsTracker zero-Attachable

one-Attachable : Attachable ℕ_discrete one 1 0
unfolding program
one-Attachable = record {
  fresh = refl;
  not_self = omega arith;
  not_below = λ r d w. absurd (not_node 0 r d one refl w);
}

add_example :
    (t' : RootTracker ℕ) × (add ℕ_discrete 1 0 one ≡ (ok tt, t'))
    × IsTracker ℕ_discrete t'
    × (t'.tree.parents ≡ put ℕ_discrete one.tree.parents 1 0)
add_example = Addition.add_lem ℕ_discrete one 1 0 one-IsTracker one-Attachable

two-IsTracker : IsTracker ℕ_discrete two
two-IsTracker = Addition.add-IsTracker ℕ_discrete one 1 0 one-IsTracker one-Attachable

get_root_example :
    ((get ℕ_discrete two.tree.parents 2 ≡ none)
      × (get_root ℕ_discrete 2 two ≡ (err validation_error, two)))
    ⊎ ((r : ℕ) × (d : ℕ) × RootOf ℕ_discrete two.tree.parents 2 r d
        × ((t' : RootTracker ℕ) × (get_root ℕ_discrete 2 two ≡ (ok (r, pos d), t'))
            × IsTracker ℕ_discrete t'
            × (t'.tree ≡ two.tree)))
get_root_example = Lookup.get_root_lem ℕ_discrete two two-IsTracker 2

add_twice_example : add ℕ_discrete 2 0 two ≡ (err validation_error, record two { cache = [] })
unfolding program
add_twice_example = Addition.add_twice ℕ_discrete two 2 0 1 refl

prune_example :
    (t' : RootTracker ℕ) × (prune ℕ_discrete 1 two ≡ (ok tt, t'))
    × IsTracker ℕ_discrete t'
    × (t'.tree.parents ≡ del ℕ_discrete two.tree.parents 1)
unfolding program
prune_example = PruneRoot.prune_lem ℕ_discrete two two-IsTracker 1 0 refl refl

prune_not_root_example : (prune ℕ_discrete 2 two).0 ≡ err validation_error
unfolding program
prune_not_root_example = PruneRoot.prune_not_root ℕ_discrete two two-IsTracker 2 inner
  where
    inner :
        (p : ℕ)
        → get ℕ_discrete two.tree.parents 2 ≡ some p
        → get ℕ_discrete two.tree.parents p ≢ none
    inner p h e =
        let same : 1 ≡ p = some_inj refl h in
        some-ne-none refl (ap (get ℕ_discrete two.tree.parents) same ∙ e)
