-- ===== src/Runtime/Scheduler/Valid.antt =====
-- The invariant of the scheduler: the current slot holds the one running task, and ids are distinct.
use mathlib.Core.Bool.{false≢true}
use nix_os.Prelude.{
  ℕ, ◌^◌, ◌≤◌, ◌<◌, ◌≡◌, refl, inl, inr, Bool, true, false, Option, none, some, List, map, arith,
  length, set, slot, is_some_and, map_option, slot-set, slot-map, slot_bound, slot-replicate,
  Option-cases,
}
use nix_os.Runtime.Scheduler.{
  Task, Scheduler, is_running, id_of, wake_sleepers, wake_task, demote_current, demote_task,
  with_quantum,
}

abbrev pub runs : Option Task → Bool
runs = is_some_and (λ t. is_running t.state)

-- The slots' ids are distinct and below `n`.
pub record HasIds (tasks : List (Option Task)) (n : ℕ) : Type 0 where
  pub distinct :
      (i j id : ℕ) → id_of (slot tasks i) ≡ some id → id_of (slot tasks j) ≡ some id → i ≡ j
  pub below : (i id : ℕ) → id_of (slot tasks i) ≡ some id → id < n

-- Exactly the current slot runs.
pub record RunsAt (tasks : List (Option Task)) (current : Option ℕ) : Type 0 where
  pub current_runs : (i : ℕ) → current ≡ some i → runs (slot tasks i) ≡ true
  pub only_current : (i : ℕ) → runs (slot tasks i) ≡ true → current ≡ some i

pub record IsValid (s : Scheduler) : Type 0 where
  pub ids : HasIds s.tasks s.next_id
  pub runner : RunsAt s.tasks s.current
  pub small_id : s.next_id < 2 ^ 32
  pub in_quantum : s.remaining_ticks ≤ s.quantum_ticks

-- Two arrays with the same ids in the same slots.
abbrev pub SameIds : List (Option Task) → List (Option Task) → Type 0
SameIds xs ys = (i : ℕ) → id_of (slot ys i) ≡ id_of (slot xs i)

pub HasIds-SameIds :
    (xs ys : List (Option Task)) (n : ℕ) → SameIds xs ys → HasIds xs n → HasIds ys n
HasIds-SameIds xs ys n same h = record {
  distinct = λ i j id p q. ground (arith, h.distinct i j id, same i, same j);
  below = λ i id p. ground (arith, h.below i id, same i);
}

-- A write that keeps the slot's id keeps all ids.
pub SameIds-set :
    (xs : List (Option Task)) (i : ℕ) (v : Option Task)
    → id_of v ≡ id_of (slot xs i)
    → SameIds xs (set xs i v)
SameIds-set xs i v h j = ground (arith, slot-set xs i j v)

pub SameIds-map :
    (f : Task → Task) (xs : List (Option Task))
    → ((t : Task) → (f t).id ≡ t.id)
    → SameIds xs (map (map_option f) xs)
SameIds-map f xs keep i = elim (Option-cases (slot xs i)) [
  | inl e ↦ rw (slot-map, e)
  | inr (t, e) ↦ rw (slot-map, e, keep t)
]

-- No slot runs.
abbrev pub NoneRuns : List (Option Task) → Type 0
NoneRuns xs = (i : ℕ) → runs (slot xs i) ≡ false

pub RunsAt-none : (xs : List (Option Task)) → NoneRuns xs → RunsAt xs none
RunsAt-none xs h = record { current_runs = λ i e. cc; only_current = λ i e. cc (h i) }

-- A running task in a slot of an array where no task runs.
pub RunsAt-set_running :
    (xs : List (Option Task)) (i : ℕ) (v : Option Task)
    → NoneRuns xs
    → i < length xs
    → runs v ≡ true
    → RunsAt (set xs i v) (some i)
RunsAt-set_running xs i v h lt r = record {
  current_runs = λ j e. ground (arith, slot-set xs i j v);
  only_current = λ j e. ground (arith, slot-set xs i j v, h j);
}

-- Stopping the current task leaves none running.
pub NoneRuns-set_current :
    (xs : List (Option Task)) (i : ℕ) (v : Option Task)
    → RunsAt xs (some i)
    → runs v ≡ false
    → NoneRuns (set xs i v)
NoneRuns-set_current xs i v h r j = elim (Option-cases (slot xs i)) [
  | inl e ↦ ground (arith, h.current_runs i refl)
  | inr (t, e) ↦ ground (arith, slot-set xs i j v, slot_bound xs i e, h.only_current j)
]

-- A write of a task that does not run, to a slot that did not, changes no run.
pub RunsAt-set_same :
    (xs : List (Option Task)) (c : Option ℕ) (i : ℕ) (v : Option Task)
    → RunsAt xs c
    → runs v ≡ runs (slot xs i)
    → RunsAt (set xs i v) c
RunsAt-set_same xs c i v h r = record {
  current_runs = λ j e. ground (arith, slot-set xs i j v, h.current_runs j);
  only_current = λ j e. ground (arith, slot-set xs i j v, h.only_current j);
}

-- The current index is in range, and its task runs.
pub current_slot :
    {s : Scheduler} (i : ℕ)
    → IsValid s
    → s.current ≡ some i
    → (t : Task) × (slot s.tasks i ≡ some t) × (is_running t.state ≡ true) × (i < length s.tasks)
current_slot {s} i v e = elim (Option-cases (slot s.tasks i)) [
  | inl h ↦ absurd (false≢true (ground (arith, v.runner.current_runs i e)))
  | inr (t, h) ↦ (t, h, ground (arith, v.runner.current_runs i e), slot_bound s.tasks i h)
]

pub runs-wake_task : (now : ℕ) (t : Option Task) → runs (map_option (wake_task now) t) ≡ runs t
runs-wake_task now t = ground arith

pub wake_sleepers-IsValid : {s : Scheduler} (now : ℕ) → IsValid s → IsValid (wake_sleepers now s)
unfolding wake_sleepers
wake_sleepers-IsValid {s} now v = record {
  ids = HasIds-SameIds s.tasks _ s.next_id (SameIds-map (wake_task now) s.tasks (λ t. refl)) v.ids;
  runner = record {
    current_runs = λ i e. rw (slot-map, runs-wake_task) (v.runner.current_runs i e);
    only_current = λ i e. v.runner.only_current i (rw (slot-map, runs-wake_task) at e);
  };
  small_id = v.small_id;
  in_quantum = v.in_quantum;
}

-- Putting the current task back leaves the ids, and no task running.
pub demote_current-NoneRuns : {s : Scheduler} → IsValid s → NoneRuns (demote_current s).tasks
unfolding demote_current
demote_current-NoneRuns {s} v = go s.current v.runner
  where
    go :
        (c : Option ℕ)
        → RunsAt s.tasks c
        → NoneRuns (demote_current (record s { current = c })).tasks
    go none h = λ i. ground (arith, h.only_current i)
    go (some i) h = NoneRuns-set_current s.tasks i _ h (ground arith)

pub demote_current-SameIds : (s : Scheduler) → SameIds s.tasks (demote_current s).tasks
unfolding demote_current
demote_current-SameIds s = go s.current
  where
    go : (c : Option ℕ) → SameIds s.tasks (demote_current (record s { current = c })).tasks
    go none i = refl
    go (some k) i = SameIds-set s.tasks k (map_option demote_task (slot s.tasks k)) (ground arith) i

pub with_quantum-IsValid : (slots quantum : ℕ) → IsValid (with_quantum slots quantum)
unfolding with_quantum
with_quantum-IsValid slots quantum = record {
  ids = record {
    distinct = λ i j id p q. ground (arith, slot-replicate {A = Task} slots i);
    below = λ i id p. ground (arith, slot-replicate {A = Task} slots i);
  };
  runner = RunsAt-none _ (λ i. rw slot-replicate);
  small_id = omega arith;
  in_quantum = omega arith;
}
