-- ===== src/Runtime/Scheduler/Effects.antt =====
-- What single calls of the scheduler do: who may run, how long, and which slots change.
use nix_os.Prelude.{
  ℕ, ◌-◌, ◌≤◌, ◌<◌, ◌≡◌, ◌≢◌, ap, ◌∙◌, ◌⊎◌, inl, inr, Bool, true, false, ◌||◌, Option, none, some,
  arith, if◌then◌else◌, length, set, slot, is_none, is_some_and, map_option, slot-set, slot-map,
  slot_bound, Option-cases, length-map, position, position_found, position_missing, ok, err,
}
use nix_os.Runtime.Scheduler.{
  Task, TaskState, CpuContext, Scheduler, SchedulerError, ScheduleDecision, is_ready, is_running,
  is_exited, has_id, wake_sleepers, wake_task, wake_state, demote_current, demote_task,
  find_ready_from, start_index, run_task, pick_next, schedule, tick, count_down, current_task,
  spawn, fresh_task, find_id, reap,
}
use nix_os.Runtime.Scheduler.Valid.{IsValid, current_slot}
use nix_os.Runtime.Scheduler.Scan.{find_ready_from_found}
use nix_os.Runtime.Scheduler.Table.{find_id_found}

-- A task that `schedule` may run at `now`: ready, running, or asleep until `now` or before.
abbrev pub runnable : ℕ → TaskState → Bool
runnable now st = is_ready (wake_state now st) || is_running st

pick_next_ready :
    (previous : Option Task) (s s' : Scheduler) (d : ScheduleDecision) (i : ℕ)
    → pick_next previous s ≡ some (d, s')
    → s'.current ≡ some i
    → (t : Task) × (slot s.tasks i ≡ some t) × (is_ready t.state ≡ true)
unfolding pick_next run_task
pick_next_ready previous s s' d i e at_i = elim (Option-cases (find_ready_from s (start_index s))) [
  | inl n ↦ absurd (ground arith)
  | inr (k, f) ↦
      let first = find_ready_from_found s _ k f in
      elim (Option-cases (slot s.tasks k)) [
        | inl h ↦ absurd (ground (arith, first.is_ready_there))
        | inr (t, h) ↦
            let same : k ≡ i = ground arith in
            (t, rw (← same) h, ground (arith, first.is_ready_there))
      ]
]

abbrev ready_or_running : TaskState → Bool
ready_or_running st = is_ready st || is_running st

demoted_from :
    (s : Scheduler) (i : ℕ) (u : Task)
    → slot (demote_current s).tasks i ≡ some u
    → is_ready u.state ≡ true
    → (t : Task) × (slot s.tasks i ≡ some t) × (ready_or_running t.state ≡ true)
unfolding demote_current
demoted_from s i u f r = elim (Option-cases s.current) [
  | inl e ↦ (u, ground arith, ground arith)
  | inr (c, e) ↦
      let v : Option Task = map_option demote_task (slot s.tasks c) in
      elim (Option-cases (slot s.tasks i)) [
        | inl h ↦ absurd (ground (arith, slot-set s.tasks c i v))
        | inr (t, h) ↦ (t, h, ground (arith, slot-set s.tasks c i v))
      ]
]

woken_from :
    (now : ℕ) (s : Scheduler) (i : ℕ) (u : Task)
    → slot (wake_sleepers now s).tasks i ≡ some u
    → ready_or_running u.state ≡ true
    → (t : Task) × (slot s.tasks i ≡ some t) × (runnable now t.state ≡ true)
unfolding wake_sleepers
woken_from now s i u f r = elim (Option-cases (slot s.tasks i)) [
  | inl h ↦ absurd (ground (arith, slot-map (wake_task now) s.tasks i))
  | inr (t, h) ↦ (t, h, ground (arith, slot-map (wake_task now) s.tasks i))
]

-- `schedule` runs only a task that may run: one that is blocked, exited, or asleep past `now` is
-- never chosen.
pub schedule-runnable :
    (now : ℕ) (s s' : Scheduler) (d : ScheduleDecision) (i : ℕ)
    → schedule now s ≡ some (d, s')
    → s'.current ≡ some i
    → (t : Task) × (slot s.tasks i ≡ some t) × (runnable now t.state ≡ true)
unfolding schedule
schedule-runnable now s s' d i e at_i = elim (Option-cases (current_task (wake_sleepers now s))) [
  | inl h ↦ absurd (ground arith)
  | inr (p, h) ↦
      let (u, f, r) =
        pick_next_ready p (demote_current (wake_sleepers now s)) s' d i (rw (h, schedule) at e)
          at_i in
      let (t, g, q) = demoted_from (wake_sleepers now s) i u f r in woken_from now s i t g q
]

-- Within its quantum the current task of a valid scheduler is left alone: `tick` goes on with it,
-- counts one tick down, wakes the sleepers that are due and changes nothing else.
pub tick_within_quantum :
    {s : Scheduler} (now i : ℕ) (t : Task)
    → IsValid s
    → s.current ≡ some i
    → slot s.tasks i ≡ some t
    → 1 < s.remaining_ticks
    → tick now s
      ≡ some (
        ScheduleDecision.continue_task t.id,
        record (wake_sleepers now s) { remaining_ticks = s.remaining_ticks - 1 },
      )
unfolding tick count_down wake_sleepers
tick_within_quantum {s} now i t v c h more =
    let (u, f, r, lt) = current_slot i v c in
    ground
      (arith, slot-map (wake_task now) s.tasks i, length-map (map_option (wake_task now)) s.tasks)

-- At the end of the quantum `tick` schedules, from a state with no tick left.
pub tick_ends_quantum :
    {s : Scheduler} (now i : ℕ)
    → IsValid s
    → s.current ≡ some i
    → s.remaining_ticks ≤ 1
    → tick now s ≡ schedule now (record (wake_sleepers now s) { remaining_ticks = 0 })
unfolding tick count_down wake_sleepers
tick_ends_quantum {s} now i v c last =
    let (u, f, r, lt) = current_slot i v c in
    let zero_left : s.remaining_ticks - 1 ≡ 0 = omega arith in
    ground
      (arith, slot-map (wake_task now) s.tasks i, length-map (map_option (wake_task now)) s.tasks)

-- `spawn` on every branch. With a free slot it returns the next id and fills one slot that was empty
-- with a ready task of that id; the other slots, the current task and the ticks stay. With none it
-- reports `Full` and changes nothing.
pub spawn_effect :
    (process_id : ℕ) (context : CpuContext) (s : Scheduler)
    → let (r, s') = spawn process_id context s in
      ((i : ℕ) × (r ≡ ok s.next_id)
        × (slot s.tasks i ≡ none)
        × (slot s'.tasks i ≡ some (fresh_task s.next_id process_id context))
        × ((j : ℕ) → j ≢ i → slot s'.tasks j ≡ slot s.tasks j)
        × (s'.current ≡ s.current)
        × (s'.remaining_ticks ≡ s.remaining_ticks))
      ⊎ ((r ≡ err SchedulerError.full)
          × (s' ≡ s)
          × ((j : ℕ) → j < length s.tasks → is_none (slot s.tasks j) ≡ false))
unfolding spawn
spawn_effect process_id context s = elim (Option-cases (position is_none s.tasks)) [
  | inl e ↦ inr (ground arith, ground arith, λ j lt. position_missing is_none s.tasks j e lt)
  | inr (i, e) ↦
      let (lt, empty) = position_found is_none s.tasks i e in
      let v : Option Task = some (fresh_task s.next_id process_id context) in
      inl (
        i,
        ground arith,
        ground arith,
        ground (arith, slot-set s.tasks i i v),
        λ j ne. ground (arith, slot-set s.tasks i j v),
        ground arith,
        ground arith,
      )
]

-- In a valid scheduler the slot of a task is the one that its id finds.
find_id_of_slot :
    {s : Scheduler} (i : ℕ) (t : Task)
    → IsValid s
    → slot s.tasks i ≡ some t
    → find_id t.id s ≡ some i
find_id_of_slot {s} i t v h = elim (Option-cases (find_id t.id s)) [
  | inl e ↦ absurd (ground (arith, missing e))
  | inr (k, e) ↦
      let (u, f, same, lt) = find_id_found t.id s k e in
      e ∙ ap some (v.ids.distinct k i t.id (rw f (ap some same)) (rw h))
]
  where
    missing : find_id t.id s ≡ none → is_some_and (has_id t.id) (slot s.tasks i) ≡ false
    missing e =
        position_missing (is_some_and (has_id t.id)) s.tasks i (unfold find_id in e)
          (slot_bound s.tasks i h)

-- `reap` of a task that has exited returns it and empties its slot alone; of a task that has not
-- exited it reports `TaskNotFound` and changes nothing.
pub reap_effect :
    {s : Scheduler} (i : ℕ) (t : Task)
    → IsValid s
    → slot s.tasks i ≡ some t
    → reap t.id s ≡ (
        if is_exited t.state
        then (ok t, record s { tasks = set s.tasks i none })
        else (err SchedulerError.task_not_found, s))
unfolding reap
reap_effect {s} i t v h = ground (arith, find_id_of_slot i t v h)
