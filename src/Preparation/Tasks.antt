-- ===== src/Preparation/Tasks.antt =====
-- `OrderedTaskPreparation`. A method that awaits returns `none` where it would go on waiting. The
-- completions are held by their entries in `tasks` alone, so they are kept there by value.
use trinity.Prelude.{
  ℕ, zero, suc, ◌+◌, Bool, true, false, Option, none, some, List, [], ◌∷◌, ◌++◌, ◌&&◌, ◌||◌, not,
  elem, remove, length, ltb, if◌then◌else◌, take, drop,
}
use trinity.Prelude.Exec.{
  Exec, Result, validation_error, key_error, duplicate_tasks, missing_dependency, diverges, pure,
  raise, gets, require, modify, raise_if, for_each, zoom, ◌>>=◌, ◌>>◌,
}
use trinity.Prelude.Int.{ℤ, pos, negsuc, ◌-ℤ◌}
use trinity.Prelude.Dict
use trinity.Prelude.Dict.{Dict, size}
use trinity.Roots.Tracker
use trinity.Roots.Tracker.{RootTracker, empty_tracker, get_children, get_root}
use trinity.Preparation.Completion.{
  Completion, new_completion, is_nil, is_complete, finish, set_complete, batch_size, asks_nothing,
}

-- What the constructor is given: the prerequisites, the two extractors and the limits.
pub record Setup (T K P : Type 0) : Type 0 where
  pub prerequisites : List P
  pub id_of : T → K
  pub dependency_of : T → K
  pub accept_dangling_tasks : Bool
  pub max_depth : ℕ
  pub max_tasks : Option ℕ

pub record Preparation (T K P : Type 0) : Type 0 where
  pub tasks : Dict K (Completion T P)
  pub unready : List K
  pub ready_tasks : List T
  pub declared_finished : List K
  pub roots : RootTracker K
  pub last_yielded_tasks : List T
  pub ready_count_dropped : Bool

abbrev pub new_preparation : {T K P : Type 0} → Preparation T K P
new_preparation = record {
  tasks = [];
  unready = [];
  ready_tasks = [];
  declared_finished = [];
  roots = empty_tracker;
  last_yielded_tasks = [];
  ready_count_dropped = false;
}

module _ {T K P : Type 0} (dec : Discrete K) (dec_prereq : Discrete P) (setup : Setup T K P) where
  abbrev pub Method : Type 0 → Type 0
  Method A = Exec (Preparation T K P) A

  abbrev pub completion_of : K → Method (Completion T P)
  completion_of task_id s = require key_error (Dict.get dec s.tasks task_id) s

  abbrev pub on_roots : {A : Type 0} → Exec (RootTracker K) A → Method A
  on_roots m = zoom (λ s. s.roots) (λ roots s. record s { roots = roots }) m

  abbrev pub lift : {A : Type 0} → Result A → Method A
  lift r s = (r, s)

  -- `set.add`
  abbrev pub insert : K → List K → List K
  insert k ks = if elem dec k ks then ks else ks ++ k ∷ []

  abbrev pub complete : Completion T P → Bool
  complete c = is_complete dec_prereq setup.prerequisites c

  unfoldable pub set_finished_dependency : T → Method Unit
  set_finished_dependency finished_task = do
    completed ← lift (set_complete dec_prereq setup.prerequisites (new_completion finished_task))
    present ← gets (λ s. Dict.has dec s.tasks (setup.id_of finished_task))
    raise_if duplicate_tasks present
    modify (λ s. record s {
      tasks = Dict.put dec s.tasks (setup.id_of finished_task) completed;
      declared_finished = insert (setup.id_of finished_task) s.declared_finished;
    })
    on_roots (Tracker.add dec (setup.id_of finished_task) (setup.dependency_of finished_task))

  unfoldable pub is_ready : T → Preparation T K P → Bool
  is_ready task s =
      elem dec (setup.dependency_of task) s.declared_finished
      || (Dict.has dec s.tasks (setup.dependency_of task)
          && not (elem dec (setup.dependency_of task) s.unready))

  -- The children that can be marked as complete now.
  unfoldable pub depending : List K → Method (List K)
  depending [] = pure []
  depending (d ∷ ds) = do
    c ← completion_of d
    waiting ← gets (λ s. elem dec d s.unready)
    rest ← depending ds
    pure (if complete c && waiting then d ∷ rest else rest)

  -- `_mark_one_task_complete`
  unfoldable pub mark_one : K → Method (List K)
  mark_one task_id = do
    task_completion ← completion_of task_id
    modify (λ s. record s { ready_tasks = s.ready_tasks ++ task_completion.task ∷ [] })
    present ← gets (λ s. elem dec task_id s.unready)
    raise_if key_error (not present)
    modify (λ s. record s { unready = remove dec task_id s.unready })
    children ← gets (λ s. get_children dec task_id s.roots)
    depending children

  -- `mapcat` over one generation.
  unfoldable pub mark_each : List K → Method (List K)
  mark_each [] = pure []
  mark_each (q ∷ qs) = do first ← mark_one q; rest ← mark_each qs; pure (first ++ rest)

  -- The loop of `_mark_complete`, on fuel: every round marks a task that was not ready.
  unfoldable pub mark_loop : ℕ → List K → Method Unit
  mark_loop fuel [] = pure tt
  mark_loop zero (q ∷ qs) = raise diverges
  mark_loop (suc fuel) (q ∷ qs) = do next ← mark_each (q ∷ qs); mark_loop fuel next

  unfoldable pub mark_complete : K → Method Unit
  mark_complete task_id s = mark_loop (suc (length s.unready)) (task_id ∷ []) s

  unfoldable pub mark_if_ready : K → Completion T P → T → Method Unit
  mark_if_ready task_id c task = do
    ready ← gets (λ s. complete c && is_ready task s)
    if ready then mark_complete task_id else pure tt

  -- The body of the loop of `finish_prereq`.
  unfoldable pub finish_one : P → T → Method Unit
  finish_one prereq task = do
    task_completion ← λ s. require validation_error (Dict.get dec s.tasks (setup.id_of task)) s
    waiting ← gets (λ s. elem dec (setup.id_of task) s.unready)
    raise_if validation_error (not waiting)
    c ← lift (finish dec_prereq setup.prerequisites prereq task_completion)
    modify (λ s. record s { tasks = Dict.put dec s.tasks (setup.id_of task) c })
    mark_if_ready (setup.id_of task) c task

  unfoldable pub finish_prereq : P → List T → Method Unit
  finish_prereq prereq tasks = do
    empty ← gets (λ s. is_nil s.tasks)
    raise_if validation_error empty
    for_each (finish_one prereq) tasks

  -- `dict((self._id_of(task), task) for task in tasks)`
  unfoldable pub identified : List T → Dict K T → Dict K T
  identified [] d = d
  identified (task ∷ tasks) d = identified tasks (Dict.put dec d (setup.id_of task) task)

  abbrev pub has_duplicate : Dict K T → Preparation T K P → Bool
  has_duplicate [] s = false
  has_duplicate (e ∷ d) s = Dict.has dec s.tasks e.0 || has_duplicate d s

  abbrev pub not_registered : Dict K T → Preparation T K P → Dict K T
  not_registered [] s = []
  not_registered (e ∷ d) s =
      let rest = not_registered d s in if Dict.has dec s.tasks e.0 then rest else e ∷ rest

  -- The body of the loop of `register_tasks`.
  unfoldable pub register_one : K × T → Method Unit
  register_one (task_id, task) = do
    known ← gets (λ s. Dict.has dec s.tasks (setup.dependency_of task))
    raise_if missing_dependency (not setup.accept_dangling_tasks && not known)
    modify (λ s. record s {
      tasks = Dict.put dec s.tasks task_id (new_completion task);
      unready = insert task_id s.unready;
    })
    on_roots (Tracker.add dec task_id (setup.dependency_of task))
    mark_if_ready task_id (new_completion task) task

  abbrev pub values : Dict K T → List T
  values [] = []
  values (e ∷ d) = e.1 ∷ values d

  unfoldable pub register_tasks : List T → Bool → Method (List T)
  register_tasks tasks ignore_duplicates = do
    raise_if validation_error
        (ltb (size (identified tasks [])) (length tasks) && not ignore_duplicates)
    duplicates ← gets (λ s. has_duplicate (identified tasks []) s)
    raise_if duplicate_tasks (duplicates && not ignore_duplicates)
    new_tasks ← gets (λ s. not_registered (identified tasks []) s)
    for_each register_one new_tasks
    pure (values new_tasks)

  unfoldable pub num_tasks : Preparation T K P → ℕ
  num_tasks s = length s.ready_tasks + length s.unready

  -- `while self.num_tasks() >= self._max_tasks`
  unfoldable pub has_room : Preparation T K P → Bool
  has_room s = elim setup.max_tasks [ none ↦ true | some max_tasks ↦ ltb (num_tasks s) max_tasks ]

  unfoldable pub wait_add_tasks : List T → Bool → Method (Option (List T))
  wait_add_tasks tasks ignore_duplicates = do
    room ← gets has_room
    if room
        then (do registered ← register_tasks tasks ignore_duplicates; pure (some registered))
        else (do modify (λ s. record s { ready_count_dropped = false }); pure none)

  -- `_prune`
  unfoldable pub prune_task : K → Method Unit
  prune_task prune_task_id = do
    on_roots (Tracker.prune dec prune_task_id)
    _ ← completion_of prune_task_id
    modify (λ s. record s {
      tasks = Dict.del dec s.tasks prune_task_id;
      declared_finished = remove dec prune_task_id s.declared_finished;
    })

  abbrev pub is_positive : ℤ → Bool
  is_positive (pos n) = ltb 0 n
  is_positive (negsuc n) = false

  unfoldable pub prune_finished : K → Method Unit
  prune_finished task_id = do
    known ← gets (λ s. Dict.has dec s.tasks task_id)
    if known
        then (do
          (root_task_id, depth) ← on_roots (get_root dec task_id)
          if is_positive (depth -ℤ pos setup.max_depth) then prune_task root_task_id else pure tt)
        else pure tt

  unfoldable pub prune_twice : T → Method Unit
  prune_twice completed_task = do
    prune_finished (setup.id_of completed_task)
    prune_finished (setup.id_of completed_task)

  unfoldable pub queue_get_batch : Option ℕ → Method (Option (List T))
  queue_get_batch max_results = do
    raise_if validation_error (asks_nothing max_results)
    queue ← gets (λ s. s.ready_tasks)
    let count = batch_size max_results (length queue)
    if is_nil queue then pure none else do
      modify (λ s. record s { ready_tasks = drop count s.ready_tasks })
      pure (some (take count queue))

  unfoldable pub yield_batch : Option (List T) → Method (Option (List T))
  yield_batch none = pure none
  yield_batch (some tasks) = do
    modify (λ s. record s { last_yielded_tasks = tasks; ready_count_dropped = true })
    pure (some tasks)

  -- `ready_tasks()`, up to its only await.
  unfoldable pub next_ready_tasks : Option ℕ → Method (Option (List T))
  next_ready_tasks max_results = do
    finished ← gets (λ s. s.last_yielded_tasks)
    for_each prune_twice finished
    batch ← queue_get_batch max_results
    yield_batch batch

  unfoldable pub has_ready_tasks : Preparation T K P → Bool
  has_ready_tasks s = not (is_nil s.ready_tasks)
