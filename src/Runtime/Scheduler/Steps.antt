-- ===== src/Runtime/Scheduler/Steps.antt =====
-- Every method of the scheduler keeps the invariant, and none of them panics under it.
use nix_os.Prelude.{
  ℕ, ◌+◌, ◌-◌, ◌^◌, ◌≤◌, ◌<◌, ◌≡◌, refl, ◌∙◌, ◌⊎◌, inl, inr, false, Option, none, some, arith,
  lt→ltb, ◌==◌, length, set, slot, slot_bound, Option-cases, Bool-cases, ok, err,
}
use mathlib.Core.Bool.{false≢true}
use nix_os.Runtime.Scheduler.{
  Task, TaskState, Scheduler, SchedulerError, ScheduleDecision, is_running, set_state,
  wake_sleepers, demote_current, current_task, find_ready_from, start_index, run_task, pick_next,
  schedule, count_down, tick, stop_current,
}
use nix_os.Runtime.Scheduler.Valid.{
  current_slot, HasIds, IsValid, HasIds-SameIds, SameIds-set, NoneRuns, RunsAt-none,
  RunsAt-set_running, NoneRuns-set_current, wake_sleepers-IsValid, demote_current-NoneRuns,
  demote_current-SameIds,
}
use nix_os.Runtime.Scheduler.Scan.{FirstReady, find_ready_from_found}

-- A call that returns, with a valid scheduler whose next id is `n`.
pub record Returns {A : Type 0} (n : ℕ) (m : Option (A × Scheduler)) : Type 0 where
  pub result : A
  pub after : Scheduler
  pub returned : m ≡ some (result, after)
  pub valid : IsValid after
  pub next : after.next_id ≡ n

module _ (previous : Option Task) (i : ℕ) (t : Task) (s : Scheduler) where
  pub run_task_fields :
      let s' = (run_task previous i t s).1 in
      (s'.tasks ≡ set s.tasks i (some (set_state TaskState.running t)))
      × (s'.current ≡ some i)
      × (s'.next_id ≡ s.next_id)
      × (s'.remaining_ticks ≡ s'.quantum_ticks)
      × (s'.remaining_ticks ≡ s.quantum_ticks)
  unfolding run_task
  run_task_fields = ground arith

  pub run_task-IsValid :
      HasIds s.tasks s.next_id
      → NoneRuns s.tasks
      → s.next_id < 2 ^ 32
      → slot s.tasks i ≡ some t
      → IsValid (run_task previous i t s).1
  run_task-IsValid ids idle small e = record {
    ids =
        rw (run_task_fields.0, run_task_fields.2)
          (HasIds-SameIds s.tasks _ s.next_id (SameIds-set s.tasks i _ (rw e)) ids);
    runner =
        rw (run_task_fields.0, run_task_fields.1)
          (RunsAt-set_running s.tasks i _ idle (slot_bound s.tasks i e) refl);
    small_id = omega (arith, run_task_fields);
    in_quantum = omega (arith, run_task_fields);
  }

-- `pick_next` never meets its `expect`.
pick_next-Returns :
    (previous : Option Task) (s : Scheduler)
    → HasIds s.tasks s.next_id
    → NoneRuns s.tasks
    → s.next_id < 2 ^ 32
    → s.remaining_ticks ≤ s.quantum_ticks
    → Returns s.next_id (pick_next previous s)
unfolding pick_next
pick_next-Returns previous s ids quiet small quantum =
    elim (Option-cases (find_ready_from s (start_index s))) [
      | inl e ↦ record {
        result = ScheduleDecision.idle;
        after = record s { current = none };
        returned = ground arith;
        valid = record {
          ids = ids;
          runner = RunsAt-none s.tasks quiet;
          small_id = small;
          in_quantum = quantum;
        };
        next = refl;
      }
      | inr (i, e) ↦ at_index i e (Option-cases (slot s.tasks i))
    ]
  where
    at_index :
        (i : ℕ)
        → find_ready_from s (start_index s) ≡ some i
        → (slot s.tasks i ≡ none) ⊎ ((t : Task) × (slot s.tasks i ≡ some t))
        → Returns s.next_id (pick_next previous s)
    at_index i e (inl h) =
        let f : FirstReady s.tasks (start_index s) 0 (0 + length s.tasks) i =
          find_ready_from_found s _ i e in
        absurd (false≢true (ground (arith, f.is_ready_there)))
    at_index i e (inr (t, h)) = record {
      result = (run_task previous i t s).0;
      after = (run_task previous i t s).1;
      returned = ground arith;
      valid = run_task-IsValid previous i t s ids quiet small h;
      next = (run_task_fields previous i t s).2;
    }

-- Reading the current task does not go out of range.
pub current_task-total : {s : Scheduler} → IsValid s → (p : Option Task) × (current_task s ≡ some p)
unfolding current_task
current_task-total {s} v = elim (Option-cases s.current) [
  | inl e ↦ (none, rw e)
  | inr (i, e) ↦ let (t, h, r, lt) = current_slot i v e in (some t, ground arith)
]

pub demote_current_fields :
    (s : Scheduler)
    → let s' = demote_current s in
      (s'.current ≡ s.current)
      × (s'.next_id ≡ s.next_id)
      × (s'.remaining_ticks ≡ s.remaining_ticks)
      × (s'.quantum_ticks ≡ s.quantum_ticks)
unfolding demote_current
demote_current_fields s = ground arith

next_id-wake_sleepers : (now : ℕ) (s : Scheduler) → (wake_sleepers now s).next_id ≡ s.next_id
unfolding wake_sleepers
next_id-wake_sleepers now s = refl

Returns-next :
    {A : Type 0} {m n : ℕ} {r : Option (A × Scheduler)} → m ≡ n → Returns m r → Returns n r
Returns-next e r = rw e at r

pub schedule_step :
    (now : ℕ) (s : Scheduler) (p : Option Task)
    → current_task (wake_sleepers now s) ≡ some p
    → schedule now s ≡ pick_next p (demote_current (wake_sleepers now s))
unfolding schedule
schedule_step now s p e = rw (e, schedule)

-- From a valid scheduler `schedule` returns, without a panic, and leaves a valid one.
pub schedule-Returns : {s : Scheduler} (now : ℕ) → IsValid s → Returns s.next_id (schedule now s)
schedule-Returns {s} now v =
    rw (schedule_step now s previous.0 previous.1)
      (Returns-next ((demote_current_fields woken).1 ∙ next_id-wake_sleepers now s) picked)
  where
    woken : Scheduler
    woken = wake_sleepers now s

    valid : IsValid woken
    valid = wake_sleepers-IsValid now v

    previous : (p : Option Task) × (current_task woken ≡ some p)
    previous = current_task-total valid

    picked : Returns (demote_current woken).next_id (pick_next previous.0 (demote_current woken))
    picked =
        pick_next-Returns previous.0 (demote_current woken)
          (rw (demote_current_fields woken).1
            (HasIds-SameIds woken.tasks _ woken.next_id (demote_current-SameIds woken) valid.ids))
          (demote_current-NoneRuns valid)
          (omega (arith, demote_current_fields woken, valid.small_id))
          (omega (arith, demote_current_fields woken, valid.in_quantum))

count_down-Returns :
    {s : Scheduler} (now : ℕ) (t : Task) → IsValid s → Returns s.next_id (count_down now t s)
unfolding count_down
count_down-Returns {s} now t v = elim (Bool-cases (s.remaining_ticks - 1 == 0)) [
  | inl e ↦ rw (e, count_down) (schedule-Returns now valid)
  | inr e ↦ record {
    result = ScheduleDecision.continue_task t.id;
    after = s';
    returned = rw (e, count_down);
    valid = valid;
    next = refl;
  }
]
  where
    s' : Scheduler
    s' = record s { remaining_ticks = s.remaining_ticks - 1 }

    valid : IsValid s'
    valid = record {
      ids = v.ids;
      runner = v.runner;
      small_id = v.small_id;
      in_quantum = omega (arith, v.in_quantum);
    }

-- From a valid scheduler `tick` returns, without a panic, and leaves a valid one.
pub tick-Returns : {s : Scheduler} (now : ℕ) → IsValid s → Returns s.next_id (tick now s)
unfolding tick wake_sleepers
tick-Returns {s} now v = elim (Option-cases woken.current) [
  | inl e ↦ rw (e, tick) (schedule-Returns now valid)
  | inr (i, e) ↦
      let (t, h, r, lt) = current_slot i valid e in
      rw (e, tick) (rw (lt→ltb _ _ lt, h, r) (count_down-Returns now t valid))
]
  where
    woken : Scheduler
    woken = wake_sleepers now s

    valid : IsValid woken
    valid = wake_sleepers-IsValid now v

-- Stopping the current task: the call returns, and the scheduler stays valid.
pub stop_current-Returns :
    {s : Scheduler} (st : TaskState)
    → is_running st ≡ false
    → IsValid s
    → Returns s.next_id (stop_current st s)
unfolding stop_current
stop_current-Returns {s} st stopped v = elim (Option-cases s.current) [
  | inl e ↦ record {
    result = err SchedulerError.no_current_task;
    after = s;
    returned = ground arith;
    valid = v;
    next = refl;
  }
  | inr (i, e) ↦
      let (t, h, r, lt) = current_slot i v e in
      record {
        result = ok t.id;
        after = record s { tasks = set s.tasks i (some (set_state st t)); current = none };
        returned = rw (e, stop_current) (rw (lt→ltb _ _ lt, h));
        valid = record {
          ids =
              HasIds-SameIds s.tasks _ s.next_id
                (SameIds-set s.tasks i (some (set_state st t)) (rw h)) v.ids;
          runner = RunsAt-none _ (NoneRuns-set_current s.tasks i _ (rw e at v.runner) stopped);
          small_id = v.small_id;
          in_quantum = v.in_quantum;
        };
        next = refl;
      }
]
