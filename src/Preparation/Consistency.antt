-- ===== src/Preparation/Consistency.antt =====
-- The invariant of `OrderedTaskPreparation` on prerequisites, and the marking of tasks, generation
-- by generation.
use trinity.Prelude.{
  ℕ, zero, suc, ◌≡◌, ◌≢◌, ◌⊎◌, inl, inr, refl, sym, ap, subst, ◌∙◌, Bool, true, false, some, List,
  [], ◌∷◌, ◌++◌, ◌&&◌, elem, remove, length, Bool-cases, Option-cases, some_inj, arith,
}
use trinity.Prelude.Exec.{key_error, Exec, Result, ok, err, Error, continue}
use trinity.Prelude.Dict.{get}
use trinity.Roots.Tracker.{get_children}
use trinity.Preparation.Completion.{Completion}
use trinity.Preparation.Tasks.{
  Setup, Preparation, complete, depending, mark_one, mark_each, mark_loop, mark_complete,
  mark_if_ready, is_ready,
}

module _ {A : Type 0} (dec : Discrete A) where
  pub elem-remove_ne :
      (a b : A) (xs : List A) → b ≢ a → elem dec b (remove dec a xs) ≡ elem dec b xs
  elem-remove_ne a b [] ne = refl
  elem-remove_ne a b (x ∷ xs) ne = ground (arith, elem-remove_ne a b xs)

module _ {T K P : Type 0} (dec : Discrete K) (dec_prereq : Discrete P) (setup : Setup T K P) where
  abbrev pub State : Type 0
  State = Preparation T K P

  abbrev pub done : Completion T P → Bool
  done c = complete dec dec_prereq setup c

  -- A registered task that is not waiting has all its prerequisites.
  abbrev pub IsConsistent : State → Type 0
  IsConsistent s =
      (k : K) (c : Completion T P)
      → get dec s.tasks k ≡ some c
      → elem dec k s.unready ≡ false
      → done c ≡ true

  abbrev pub HasAll : State → K → Type 0
  HasAll s k = (c : Completion T P) → get dec s.tasks k ≡ some c → done c ≡ true

  abbrev pub AllHaveAll : State → List K → Type 0
  AllHaveAll s ks = (k : K) → elem dec k ks ≡ true → HasAll s k

  -- The tasks are the same, and only tasks with all their prerequisites wait no longer.
  pub record Advances (s s' : State) : Type 0 where
    pub same_tasks : s'.tasks ≡ s.tasks
    pub stopped :
        (k : K) → elem dec k s'.unready ≡ false → (elem dec k s.unready ≡ false) ⊎ HasAll s k

  Advances-refl : (s : State) → Advances s s
  Advances-refl s = record { same_tasks = refl; stopped = λ k h. inl h }

  HasAll-same : (s s' : State) (k : K) → s'.tasks ≡ s.tasks → HasAll s' k → HasAll s k
  HasAll-same s s' k e all c h = all c (ap (λ d. get dec d k) e ∙ h)

  Advances-trans : (s s' s'' : State) → Advances s s' → Advances s' s'' → Advances s s''
  Advances-trans s s' s'' x y = record {
    same_tasks = y.same_tasks ∙ x.same_tasks;
    stopped = λ k h. elim (y.stopped k h) [
      | inl h' ↦ x.stopped k h'
      | inr all ↦ inr (HasAll-same s s' k x.same_tasks all)
    ];
  }

  pub Advances-IsConsistent : (s s' : State) → Advances s s' → IsConsistent s → IsConsistent s'
  Advances-IsConsistent s s' x v k c at h =
      let at' = ap (λ d. get dec d k) (sym x.same_tasks) ∙ at in
      elim (x.stopped k h) [ inl h' ↦ v k c at' h' | inr all ↦ all c at' ]

  -- What a step of the marking returns and leaves.
  abbrev Marked : State → Result (List K) × State → Type 0
  Marked s out = Advances s out.1 × ((ds : List K) → out.0 ≡ ok ds → AllHaveAll s ds)

  abbrev Depends : State → List K → Type 0
  Depends s ds =
      ((e : Error) × (depending dec dec_prereq setup ds s ≡ (err e, s)))
      ⊎ ((es : List K) × (depending dec dec_prereq setup ds s ≡ (ok es, s)) × AllHaveAll s es)

  AllHaveAll-cons :
      (s : State) (d : K) (ds : List K) → HasAll s d → AllHaveAll s ds → AllHaveAll s (d ∷ ds)
  AllHaveAll-cons s d ds first rest k inside = elim (dec k d) [
    | yes e ↦ subst (HasAll s) (sym e) first
    | no ne ↦ rest k (ground arith)
  ]

  AllHaveAll-nil : (s : State) → AllHaveAll s []
  AllHaveAll-nil s k inside = cc

  AllHaveAll-append :
      (s : State) (ds es : List K) → AllHaveAll s ds → AllHaveAll s es → AllHaveAll s (ds ++ es)
  AllHaveAll-append s [] es p q = q
  AllHaveAll-append s (d ∷ ds) es p q =
      AllHaveAll-cons s d (ds ++ es) (p d (ground arith))
        (AllHaveAll-append s ds es (λ k inside. p k (ground arith)) q)

  HasAll-of :
      (s : State) (k : K) (c : Completion T P)
      → get dec s.tasks k ≡ some c
      → done c ≡ true
      → HasAll s k
  HasAll-of s k c at all c' at' =
      let same : c ≡ c' = some_inj at at' in subst (λ z. done z ≡ true) same all

  depending_lem : (s : State) (ds : List K) → Depends s ds
  unfolding depending
  depending_lem s [] = inr ([], refl, AllHaveAll-nil s)
  depending_lem s (d ∷ ds) = elim (Option-cases (get dec s.tasks d)) [
    | inl out ↦ inl (key_error, rw out refl)
    | inr (c, at) ↦ elim (depending_lem s ds) [
      | inl (e, run) ↦ inl (e, rw (at, run) refl)
      | inr (es, run, all) ↦ elim (Bool-cases (done c && elem dec d s.unready)) [
        | inl yes_now ↦ inr (
          d ∷ es,
          rw (at, run, yes_now) refl,
          AllHaveAll-cons s d es (HasAll-of s d c at (ground arith)) all,
        )
        | inr no_yet ↦ inr (es, rw (at, run, no_yet) refl, all)
      ]
    ]
  ]

  abbrev queued : State → Completion T P → State
  queued s c = record s { ready_tasks = s.ready_tasks ++ c.task ∷ [] }

  abbrev freed : State → Completion T P → K → State
  freed s c k = record s {
    ready_tasks = s.ready_tasks ++ c.task ∷ [];
    unready = remove dec k s.unready;
  }

  queued-Advances : (s : State) (c : Completion T P) → Advances s (queued s c)
  queued-Advances s c = record { same_tasks = refl; stopped = λ k h. inl h }

  freed-Advances : (s : State) (c : Completion T P) (q : K) → HasAll s q → Advances s (freed s c q)
  freed-Advances s c q all = record {
    same_tasks = refl;
    stopped = λ k h. elim (dec k q) [
      | yes e ↦ inr (subst (HasAll s) (sym e) all)
      | no ne ↦ inl (sym (elem-remove_ne dec q k s.unready ne) ∙ h)
    ];
  }

  ok_inj : {xs ys : List K} → ok xs ≡ ok ys → xs ≡ ys
  ok_inj e = cc

  mark_one_lem : (s : State) (q : K) → HasAll s q → Marked s (mark_one dec dec_prereq setup q s)
  unfolding mark_one
  mark_one_lem s q all = elim (Option-cases (get dec s.tasks q)) [
    | inl out ↦ rw out (Advances-refl s, λ ds e. cc)
    | inr (c, at) ↦ elim (Bool-cases (elem dec q s.unready)) [
      | inr gone ↦ rw (at, gone) (queued-Advances s c, λ ds e. cc)
      | inl waiting ↦ elim (depending_lem (freed s c q) (get_children dec q s.roots)) [
        | inl (e, run) ↦ rw (at, waiting, run) (freed-Advances s c q all, λ ds e'. cc)
        | inr (es, run, these) ↦
            rw (at, waiting, run)
              (freed-Advances s c q all, λ ds e. subst (AllHaveAll s) (ok_inj e) these)
      ]
    ]
  ]

  AllHaveAll-same :
      (s s' : State) (ks : List K) → s'.tasks ≡ s.tasks → AllHaveAll s' ks → AllHaveAll s ks
  AllHaveAll-same s s' ks e all k inside = HasAll-same s s' k e (all k inside)

  Marked-continue :
      (s s' : State) (r : Result (List K)) (f : List K → Exec State (List K))
      → Marked s (r, s')
      → ((ds : List K) → AllHaveAll s' ds → Marked s' (f ds s'))
      → Marked s (continue r f s')
  Marked-continue s s' (ok ds) f p q =
      let rest = q ds (AllHaveAll-same s' s ds (sym p.0.same_tasks) (p.1 ds refl)) in
      (
        Advances-trans s s' (f ds s').1 p.0 rest.0,
        λ es e. AllHaveAll-same s s' es p.0.same_tasks (rest.1 es e),
      )
  Marked-continue s s' (err e) f p q = (p.0, λ es e'. cc)

  mark_each_lem :
      (qs : List K) (s : State) → AllHaveAll s qs → Marked s (mark_each dec dec_prereq setup qs s)
  unfolding mark_each
  mark_each_lem [] s all =
      (Advances-refl s, λ ds e. subst (AllHaveAll s) (ok_inj e) (AllHaveAll-nil s))
  mark_each_lem (q ∷ qs) s all =
      let first = mark_one_lem s q (all q (ground arith)) in
      let s' = (mark_one dec dec_prereq setup q s).1 in
      let s'' = (mark_each dec dec_prereq setup qs s').1 in
      let later =
        mark_each_lem qs s'
          (AllHaveAll-same s' s qs (sym first.0.same_tasks) (λ k inside. all k (ground arith))) in
      Marked-continue s s' (mark_one dec dec_prereq setup q s).0 _ first (λ ds these.
        Marked-continue s' s'' (mark_each dec dec_prereq setup qs s').0 _ later (λ es those. (
          Advances-refl s'',
          λ xs e. subst (AllHaveAll s'') (ok_inj e) (
              AllHaveAll-append s'' ds es (AllHaveAll-same s'' s' ds (sym later.0.same_tasks) these)
                those),
        )))

  Advances-continue :
      (s s' : State) (r : Result (List K)) (f : List K → Exec State Unit)
      → Marked s (r, s')
      → ((ds : List K) → AllHaveAll s' ds → Advances s' (f ds s').1)
      → Advances s (continue r f s').1
  Advances-continue s s' (ok ds) f p q =
      Advances-trans s s' (f ds s').1 p.0
        (q ds (AllHaveAll-same s' s ds (sym p.0.same_tasks) (p.1 ds refl)))
  Advances-continue s s' (err e) f p q = p.0

  mark_loop_lem :
      (fuel : ℕ) (qs : List K) (s : State)
      → AllHaveAll s qs
      → Advances s (mark_loop dec dec_prereq setup fuel qs s).1
  unfolding mark_loop
  mark_loop_lem fuel [] s all = Advances-refl s
  mark_loop_lem zero (q ∷ qs) s all = Advances-refl s
  mark_loop_lem (suc fuel) (q ∷ qs) s all =
      let s' = (mark_each dec dec_prereq setup (q ∷ qs) s).1 in
      Advances-continue s s' (mark_each dec dec_prereq setup (q ∷ qs) s).0 _
        (mark_each_lem (q ∷ qs) s all) (λ ds these. mark_loop_lem fuel ds s' these)

  -- Marking a task that has all its prerequisites, and whatever then becomes ready.
  pub mark_complete_lem :
      (k : K) (s : State) → HasAll s k → Advances s (mark_complete dec dec_prereq setup k s).1
  unfolding mark_complete
  mark_complete_lem k s all =
      mark_loop_lem (suc (length s.unready)) (k ∷ []) s
        (AllHaveAll-cons s k [] all (AllHaveAll-nil s))

  pub mark_if_ready_lem :
      (k : K) (c : Completion T P) (task : T) (s : State)
      → get dec s.tasks k ≡ some c
      → Advances s (mark_if_ready dec dec_prereq setup k c task s).1
  unfolding mark_if_ready
  mark_if_ready_lem k c task s at =
      elim (Bool-cases (done c && is_ready dec dec_prereq setup task s)) [
        | inl e ↦ rw e (mark_complete_lem k s (HasAll-of s k c at (ground arith)))
        | inr e ↦ rw e (Advances-refl s)
      ]
