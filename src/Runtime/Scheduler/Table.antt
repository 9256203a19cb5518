-- ===== src/Runtime/Scheduler/Table.antt =====
-- The methods that add, wake, end and remove tasks keep the invariant of the scheduler.
use nix_os.Prelude.{
  ℕ, ◌+◌, ◌^◌, ◌<◌, ◌≡◌, ◌≢◌, refl, ap, inl, inr, true, false, Option, none, some, List, arith,
  lt→ltb, length, set, slot, is_some_and, is_none, slot-set, Option-cases, Bool-cases, length-set,
  position, position_found, ok, err,
}
use nix_os.Prelude.Int.{ℤ}
use nix_os.Runtime.Scheduler.{
  TaskId, Task, TaskState, CpuContext, Scheduler, SchedulerError, is_exited, set_state, has_id,
  spawn, current_task, find_id, wake, current_has_id, exit_task, reap,
}
use nix_os.Runtime.Scheduler.Valid.{
  runs, HasIds, RunsAt, IsValid, HasIds-SameIds, SameIds-set, RunsAt-none, NoneRuns-set_current,
  RunsAt-set_same, current_slot,
}
use nix_os.Runtime.Scheduler.Steps.{Returns}

-- The slot that `find_id` gives holds a task with that id.
pub find_id_found :
    (id : TaskId) (s : Scheduler) (i : ℕ)
    → find_id id s ≡ some i
    → (t : Task) × (slot s.tasks i ≡ some t) × (t.id ≡ id) × (i < length s.tasks)
unfolding find_id
find_id_found id s i e = elim (Option-cases (slot s.tasks i)) [
  | inl h ↦ absurd (ground (arith, found))
  | inr (t, h) ↦ (t, h, ground (arith, found), found.0)
]
  where
    found : (i < length s.tasks) × (is_some_and (has_id id) (slot s.tasks i) ≡ true)
    found = position_found (is_some_and (has_id id)) s.tasks i e

-- A new id in an empty slot.
HasIds-set_fresh :
    (xs : List (Option Task)) (n m i : ℕ) (t : Task)
    → HasIds xs n
    → t.id ≡ n
    → n < m
    → HasIds (set xs i (some t)) m
HasIds-set_fresh xs n m i t h e lt = record {
  distinct = λ j k id p q. ground (
    arith,
    slot-set xs i j (some t),
    slot-set xs i k (some t),
    h.distinct j k id,
    h.below j id,
    h.below k id,
  );
  below = λ j id p. ground (arith, slot-set xs i j (some t), h.below j id);
}

HasIds-set-none : (xs : List (Option Task)) (n i : ℕ) → HasIds xs n → HasIds (set xs i none) n
HasIds-set-none xs n i h = record {
  distinct =
      λ j k id p q. ground (arith, slot-set xs i j none, slot-set xs i k none, h.distinct j k id);
  below = λ j id p. ground (arith, slot-set xs i j none, h.below j id);
}

pub spawn-IsValid :
    {s : Scheduler} (process_id : ℕ) (context : CpuContext)
    → s.next_id + 1 < 2 ^ 32
    → IsValid s
    → IsValid (spawn process_id context s).1
unfolding spawn
spawn-IsValid {s} process_id context small v = elim (Option-cases (position is_none s.tasks)) [
  | inl e ↦ rw (e, spawn) v
  | inr (i, e) ↦
      let (lt, empty) = position_found is_none s.tasks i e in
      rw (e, spawn)
        (rw (lt→ltb _ _ small) (record {
          ids = HasIds-set_fresh s.tasks s.next_id _ i _ v.ids refl (omega arith);
          runner = RunsAt-set_same s.tasks s.current i _ v.runner (ground arith);
          small_id = small;
          in_quantum = v.in_quantum;
        }))
]

pub wake-IsValid : {s : Scheduler} (id : TaskId) → IsValid s → IsValid (wake id s).1
unfolding wake
wake-IsValid {s} id v = elim (Option-cases (find_id id s)) [
  | inl e ↦ rw (e, wake) v
  | inr (i, e) ↦
      rw (e, wake)
        (record {
          ids = HasIds-SameIds s.tasks _ s.next_id (SameIds-set s.tasks i _ (ground arith)) v.ids;
          runner = RunsAt-set_same s.tasks s.current i _ v.runner (ground arith);
          small_id = v.small_id;
          in_quantum = v.in_quantum;
        })
]

pub reap-IsValid : {s : Scheduler} (id : TaskId) → IsValid s → IsValid (reap id s).1
unfolding reap
reap-IsValid {s} id v = elim (Option-cases (find_id id s)) [
  | inl e ↦ rw (e, reap) v
  | inr (i, e) ↦
      let (t, h, same, lt) = find_id_found id s i e in
      elim (Bool-cases (is_exited t.state)) [
        | inl x ↦
            rw (e, reap)
              (rw h (
                rw x (record {
                  ids = HasIds-set-none s.tasks s.next_id i v.ids;
                  runner = RunsAt-set_same s.tasks s.current i _ v.runner (ground arith);
                  small_id = v.small_id;
                  in_quantum = v.in_quantum;
                })))
        | inr x ↦ rw (e, reap) (rw h (rw x v))
      ]
]

-- Ending the task in slot `i`, when some slot runs.
exit_current_slot :
    (xs : List (Option Task)) (n c i : ℕ) (t u : Task) (v : Option Task)
    → HasIds xs n
    → RunsAt xs (some c)
    → slot xs i ≡ some t
    → slot xs c ≡ some u
    → u.id ≡ t.id
    → runs v ≡ false
    → RunsAt (set xs i v) none
exit_current_slot xs n c i t u v ids h e f same stopped = RunsAt-none _ (
    NoneRuns-set_current xs i v (rw (ids.distinct i c t.id (rw e) (rw f (ap some same))) h) stopped)

exit_other_slot :
    (xs : List (Option Task)) (c i : ℕ) (t u : Task) (v : Option Task)
    → RunsAt xs (some c)
    → slot xs i ≡ some t
    → slot xs c ≡ some u
    → u.id ≢ t.id
    → runs v ≡ false
    → RunsAt (set xs i v) (some c)
exit_other_slot xs c i t u v h e f other stopped =
    RunsAt-set_same xs (some c) i v h (ground (arith, h.only_current i))

module _ (s : Scheduler) (i : ℕ) (t : Task) (status : ℤ) where
  -- the state with the task of slot `i` ended, and the current slot as given
  ended : Option ℕ → Scheduler
  ended c = record s {
    tasks = set s.tasks i (some (set_state (TaskState.exited status) t));
    current = c;
  }

  ended-IsValid :
      (c : Option ℕ)
      → IsValid s
      → slot s.tasks i ≡ some t
      → RunsAt (set s.tasks i (some (set_state (TaskState.exited status) t))) c
      → IsValid (ended c)
  unfolding ended
  ended-IsValid c v h r = record {
    ids = HasIds-SameIds s.tasks _ s.next_id (SameIds-set s.tasks i _ (rw h)) v.ids;
    runner = r;
    small_id = v.small_id;
    in_quantum = v.in_quantum;
  }

  exit_task_at :
      (id : TaskId)
      → find_id id s ≡ some i
      → slot s.tasks i ≡ some t
      → t.id ≡ id
      → IsValid s
      → Returns s.next_id (exit_task id status s)
  unfolding exit_task current_has_id current_task ended
  exit_task_at id e h same v = elim (Option-cases s.current) [
    | inl none_runs ↦ record {
      result = ok tt;
      after = ended none;
      returned = ground arith;
      valid = ended-IsValid none v h (
          RunsAt-set_same s.tasks none i _ (rw none_runs at v.runner)
            (ground (arith, v.runner.only_current i)));
      next = refl;
    }
    | inr (c, at_c) ↦
        let (u, f, r, lt) = current_slot c v at_c in
        let runner : RunsAt s.tasks (some c) = rw at_c at v.runner in
        elim (Bool-cases (has_id id u)) [
          | inl yes_id ↦ record {
            result = ok tt;
            after = ended none;
            returned = ground (
              arith,
              slot-set s.tasks i c (some (set_state (TaskState.exited status) t)),
              length-set s.tasks i (some (set_state (TaskState.exited status) t)),
            );
            valid = ended-IsValid none v h (
                exit_current_slot s.tasks s.next_id c i t u _ v.ids runner h f (ground arith) refl);
            next = refl;
          }
          | inr no_id ↦ record {
            result = ok tt;
            after = ended (some c);
            returned = ground (
              arith,
              slot-set s.tasks i c (some (set_state (TaskState.exited status) t)),
              length-set s.tasks i (some (set_state (TaskState.exited status) t)),
            );
            valid =
                ended-IsValid (some c) v h
                  (exit_other_slot s.tasks c i t u _ runner h f (ground arith) refl);
            next = refl;
          }
        ]
  ]

-- From a valid scheduler `exit_task` returns, without a panic, and leaves a valid one.
pub exit_task-Returns :
    {s : Scheduler} (id : TaskId) (status : ℤ)
    → IsValid s
    → Returns s.next_id (exit_task id status s)
exit_task-Returns {s} id status v = elim (Option-cases (find_id id s)) [
  | inl e ↦ record {
    result = err SchedulerError.task_not_found;
    after = s;
    returned = unfold exit_task in rw (e, exit_task);
    valid = v;
    next = refl;
  }
  | inr (i, e) ↦
      let (t, h, same, lt) = find_id_found id s i e in exit_task_at s i t status id e h same v
]
