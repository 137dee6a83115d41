-- ===== src/Preparation/Tests.antt =====
-- Runs of `OrderedTaskPreparation`, and its theorem at one of them: a task is a pair of its own
-- number and the number of the task that it depends on.
use trinity.Prelude.{ℕ, ◌≡◌, ◌≢◌, true, refl, false, none, [], ◌∷◌, ℕ_discrete}
use trinity.Prelude.Exec.{ok, err, diverges, missing_dependency, duplicate_tasks, for_each}
use trinity.Prelude.Int.{◌+ℤ◌, ◌-ℤ◌}
use trinity.Prelude.Dict.{get, put, del, has}
use trinity.Roots.Tree.{
  add_node, prune_node, set_children, parent_of, has_parent, has_node, children_of,
}
use trinity.Roots.Object.{
  new_root, extend, true_root_loop, get_true_root, node_id, depth_offset, prune_to, prune_one,
  prune_root, prune_extension, check_child,
}
use trinity.Roots.Tracker.{
  empty_tracker, add, get_root, get_new_root, attach, link_child, link_children, look_up_root,
  stale, get_cached, prune, pairs, check_pruned, get_children,
}
use trinity.Preparation.Completion.{Completion, is_complete, finish, finish_all, set_complete}
use trinity.Preparation.Tasks.{
  Setup, Preparation, new_preparation, set_finished_dependency, is_ready, depending, mark_one,
  mark_each, mark_loop, mark_complete, mark_if_ready, finish_one, finish_prereq, identified,
  register_one, register_tasks, num_tasks, has_room, wait_add_tasks, prune_task, prune_finished,
  prune_twice, queue_get_batch, yield_batch, next_ready_tasks, has_ready_tasks,
}
use trinity.Preparation.Consistency.{IsConsistent}
use trinity.Preparation.Termination.{mark_complete_ends}
use trinity.Preparation.Prerequisites.{set_complete_lem}
use trinity.Preparation.Reachability.{
  start, after_finished_dependency, after_register_tasks, after_finish_prereq,
  Reachable-IsConsistent,
}

program : Unit {0}
unfolding get put del has for_each empty_tracker add get_root get_new_root attach link_child
    link_children look_up_root stale get_cached prune pairs check_pruned add_node prune_node
    set_children parent_of has_parent has_node children_of new_root extend true_root_loop
    get_true_root node_id depth_offset prune_to prune_one prune_root prune_extension check_child
    get_children ◌+ℤ◌ ◌-ℤ◌ ℕ_discrete is_complete finish finish_all set_complete
    set_finished_dependency is_ready depending mark_one mark_each mark_loop mark_complete
    mark_if_ready finish_one finish_prereq identified register_one register_tasks num_tasks has_room
    wait_add_tasks prune_task prune_finished prune_twice queue_get_batch yield_batch
    next_ready_tasks has_ready_tasks
program = tt

-- Two prerequisites, 10 and 20, and a depth of one before old tasks are pruned.
abbrev setup : Setup (ℕ × ℕ) ℕ ℕ
setup = record {
  prerequisites = 10 ∷ 20 ∷ [];
  id_of = λ task. task.0;
  dependency_of = λ task. task.1;
  accept_dangling_tasks = false;
  max_depth = 1;
  max_tasks = none;
}

abbrev State : Type 0
State = Preparation (ℕ × ℕ) ℕ ℕ

abbrev initial : State
initial = new_preparation

abbrev rooted : State
rooted = (set_finished_dependency ℕ_discrete ℕ_discrete setup (1, 0) initial).1

abbrev registered : State
registered = (register_tasks ℕ_discrete ℕ_discrete setup ((2, 1) ∷ (3, 2) ∷ []) false rooted).1

abbrev half : State
half = (finish_prereq ℕ_discrete ℕ_discrete setup 10 ((2, 1) ∷ (3, 2) ∷ []) registered).1

-- The later task is finished first and waits for the one it depends on.
abbrev third_done : State
third_done = (finish_prereq ℕ_discrete ℕ_discrete setup 20 ((3, 2) ∷ []) half).1

abbrev all_done : State
all_done = (finish_prereq ℕ_discrete ℕ_discrete setup 20 ((2, 1) ∷ []) third_done).1

nothing_ready : third_done.ready_tasks ≡ []
unfolding program
nothing_ready = refl

ready_in_order : all_done.ready_tasks ≡ (2, 1) ∷ (3, 2) ∷ []
unfolding program
ready_in_order = refl

not_before_its_dependency :
    (register_tasks ℕ_discrete ℕ_discrete setup ((5, 4) ∷ []) false rooted).0
    ≡ err missing_dependency
unfolding program
not_before_its_dependency = refl

not_twice :
    (register_tasks ℕ_discrete ℕ_discrete setup ((1, 0) ∷ []) false rooted).0 ≡ err duplicate_tasks
unfolding program
not_twice = refl

Reachable-IsConsistent_example : IsConsistent ℕ_discrete ℕ_discrete setup all_done
Reachable-IsConsistent_example = Reachable-IsConsistent ℕ_discrete ℕ_discrete setup all_done (
    after_finish_prereq third_done 20 ((2, 1) ∷ []) (
      after_finish_prereq half 20 ((3, 2) ∷ []) (
        after_finish_prereq registered 10 ((2, 1) ∷ (3, 2) ∷ []) (
          after_register_tasks rooted ((2, 1) ∷ (3, 2) ∷ []) false
            (after_finished_dependency initial (1, 0) start)))))

mark_complete_ends_example :
    (mark_complete ℕ_discrete ℕ_discrete setup 2 third_done).0 ≢ err diverges
mark_complete_ends_example = mark_complete_ends ℕ_discrete ℕ_discrete setup 2 third_done

abbrev half_finished : Completion ℕ ℕ
half_finished = record { task = 7; completed_prereqs = 20 ∷ [] }

set_complete_example :
    (c' : Completion ℕ ℕ) × (set_complete ℕ_discrete (10 ∷ 20 ∷ []) half_finished ≡ ok c')
    × (c'.task ≡ 7)
    × (is_complete ℕ_discrete (10 ∷ 20 ∷ []) c' ≡ true)
unfolding program
set_complete_example = set_complete_lem ℕ_discrete (10 ∷ 20 ∷ []) half_finished (refl, (refl, tt))
