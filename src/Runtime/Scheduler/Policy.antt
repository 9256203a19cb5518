-- ===== src/Runtime/Scheduler/Policy.antt =====
-- Round robin: which task `schedule` runs, and that no ready task waits for ever.
use nix_os.Prelude.{
  ℕ, ◌+◌, ◌%◌, ◌≤◌, ◌<◌, ◌≡◌, ◌≢◌, refl, sym, ap, Bool-cases, ◌∙◌, ◌⊎◌, inl, inr, true, false,
  Option, none, some, List, arith, length, slot, max, map_option, slot-set, slot-map, slot_bound,
  Option-cases, length-set, length-map,
}
use native.Mathlib.Decide.{dec_lt}
use nix_os.Runtime.Scheduler.{
  Task, TaskId, TaskState, is_ready, same_id, Scheduler, ScheduleDecision, holds_ready, set_state,
  wake_sleepers, wake_task, demote_current, demote_task, find_ready_from, start_index, run_task,
  pick_next, schedule, current_task,
}
use nix_os.Runtime.Scheduler.Valid.{IsValid, wake_sleepers-IsValid}
use nix_os.Runtime.Scheduler.Scan.{FirstReady, find_ready_from_found, find_ready_from_missing}
use nix_os.Runtime.Scheduler.Steps.{current_task-total, schedule_step, run_task_fields}
use nix_os.Runtime.Scheduler.Ahead.{ahead, ahead_reaches, ahead_of_distance}
use nix_os.Runtime.Scheduler.Origin.{MayRun, woken_before, demoted_before}

is_ready-eq : (st : TaskState) → is_ready st ≡ true → st ≡ TaskState.ready
is_ready-eq st h = ground arith

pub ready-lt : (xs : List (Option Task)) (j : ℕ) → holds_ready (slot xs j) ≡ true → j < length xs
ready-lt xs j h = elim (Option-cases (slot xs j)) [
  | inl e ↦ absurd (ground arith)
  | inr (t, e) ↦ slot_bound xs j e
]

pub start_index_at :
    (s : Scheduler) (c : ℕ) → s.current ≡ some c → start_index s ≡ (c + 1) % max (length s.tasks) 1
unfolding start_index
start_index_at s c e = rw (e, start_index)

-- The decision names this task.
pub Names : TaskId → ScheduleDecision → Type 0
Names id d =
    (d ≡ ScheduleDecision.continue_task id)
    ⊎ ((previous : Option TaskId) × (d ≡ ScheduleDecision.switch_task previous id))

-- `schedule` runs the task of slot `chosen`, which might be run before: that slot is the current one
-- after it, and holds the task, which is running and is named by the decision. The slot is no farther from
-- `start` than slot `j` is.
pub record Chooses (now : ℕ) (s : Scheduler) (start j : ℕ)
    (m : Option (ScheduleDecision × Scheduler)) : Type 0 where
  pub decision : ScheduleDecision
  pub after : Scheduler
  pub chosen : ℕ
  pub returned : m ≡ some (decision, after)
  pub runs_chosen : after.current ≡ some chosen
  pub before : Task
  pub held : slot s.tasks chosen ≡ some before
  pub might_run : MayRun now s chosen before.state
  pub task : Task
  pub same_task : task.id ≡ before.id
  pub runs_task : slot after.tasks chosen ≡ some task
  pub is_running : task.state ≡ TaskState.running
  pub named : Names task.id decision
  pub in_range : chosen < length s.tasks
  pub same_size : length after.tasks ≡ length s.tasks
  pub no_farther : ahead (length s.tasks) start chosen ≤ ahead (length s.tasks) start j
  pub still_ready : chosen ≢ j → holds_ready (slot after.tasks j) ≡ true
  pub full_quantum : after.remaining_ticks ≡ s.quantum_ticks

pub start_index-lt : (s : Scheduler) → 0 < length s.tasks → start_index s < length s.tasks
unfolding start_index
start_index-lt s h =
    let m : max (length s.tasks) 1 ≡ length s.tasks = omega arith in
    elim (Option-cases s.current) [
      | inl e ↦ rw (e, start_index) h
      | inr (i, e) ↦ rw (e, start_index, m) (omega arith)
    ]

nearest-le :
    (s : Scheduler) (start i j : ℕ)
    → start < length s.tasks
    → j < length s.tasks
    → holds_ready (slot s.tasks j) ≡ true
    → FirstReady s.tasks start 0 (0 + length s.tasks) i
    → ahead (length s.tasks) start i ≤ ahead (length s.tasks) start j
nearest-le s start i j hs hj r f = elim (dec_lt (ahead n start j) f.distance) [
  | yes p ↦
      let missed : holds_ready (slot s.tasks j) ≡ false =
        rw (ahead_reaches n start j hs hj) at (f.nearest (ahead n start j) (omega arith) p) in
      absurd (ground arith)
  | no p ↦
      let e : ahead n start i ≡ f.distance =
        rw f.at_slot (ahead_of_distance n start f.distance hs (omega (arith, f.near))) in
      omega arith
]
  where
    n : ℕ
    n = length s.tasks

run_task-Names :
    (previous : Option Task) (i : ℕ) (t : Task) (s : Scheduler)
    → Names t.id (run_task previous i t s).0
unfolding run_task Names
run_task-Names previous i t s = elim (Bool-cases (same_id previous t.id)) [
  | inl same ↦ rw same (inl refl)
  | inr other ↦ rw other (inr (_, refl))
]

pick_next-Chooses :
    (now : ℕ) (previous : Option Task) (s : Scheduler) (j : ℕ)
    → j < length s.tasks
    → holds_ready (slot s.tasks j) ≡ true
    → Chooses now s (start_index s) j (pick_next previous s)
unfolding pick_next MayRun
pick_next-Chooses now previous s j hj r = elim (Option-cases (find_ready_from s (start_index s))) [
  | inl e ↦ absurd (
      ground
        (arith, find_ready_from_missing s (start_index s) j (start_index-lt s (omega arith)) e hj))
  | inr (i, e) ↦ at_index i e (Option-cases (slot s.tasks i))
]
  where
    at_index :
        (i : ℕ)
        → find_ready_from s (start_index s) ≡ some i
        → (slot s.tasks i ≡ none) ⊎ ((t : Task) × (slot s.tasks i ≡ some t))
        → Chooses now s (start_index s) j (pick_next previous s)
    at_index i e (inl h) =
        let f = find_ready_from_found s _ i e in absurd (ground (arith, f.is_ready_there))
    at_index i e (inr (t, h)) = record {
      decision = (run_task previous i t s).0;
      after = (run_task previous i t s).1;
      chosen = i;
      returned = ground arith;
      runs_chosen = (run_task_fields previous i t s).1;
      before = t;
      held = h;
      might_run =
          let f = find_ready_from_found s _ i e in
          inl (is_ready-eq t.state (ap holds_ready (sym h) ∙ f.is_ready_there));
      task = set_state TaskState.running t;
      same_task = refl;
      runs_task = rw (run_task_fields previous i t s).0 (
          ground (
            arith,
            slot_bound s.tasks i h,
            slot-set s.tasks i i (some (set_state TaskState.running t)),
          ));
      is_running = refl;
      named = run_task-Names previous i t s;
      in_range = slot_bound s.tasks i h;
      same_size = rw (run_task_fields previous i t s).0 (length-set s.tasks i _);
      no_farther =
          nearest-le s (start_index s) i j (start_index-lt s (omega arith)) hj r
            (find_ready_from_found s _ i e);
      still_ready = λ ne.
          rw (run_task_fields previous i t s).0
            (ground (arith, slot-set s.tasks i j (some (set_state TaskState.running t))));
      full_quantum = (run_task_fields previous i t s).4;
    }

-- Waking and putting back the current task keep a ready task ready.
demote_current_keeps :
    (s : Scheduler) (j : ℕ)
    → holds_ready (slot s.tasks j) ≡ true
    → (holds_ready (slot (demote_current s).tasks j) ≡ true)
      × (length (demote_current s).tasks ≡ length s.tasks)
      × (start_index (demote_current s) ≡ start_index s)
unfolding demote_current start_index
demote_current_keeps s j r = elim (Option-cases s.current) [
  | inl e ↦ (ground arith, ground arith, ground arith)
  | inr (c, e) ↦
      let v : Option Task = map_option demote_task (slot s.tasks c) in
      (
        ground (arith, slot-set s.tasks c j v),
        ground (arith, length-set s.tasks c v),
        ground (arith, length-set s.tasks c v),
      )
]

wake_sleepers_keeps :
    (now : ℕ) (s : Scheduler) (j : ℕ)
    → holds_ready (slot s.tasks j) ≡ true
    → (holds_ready (slot (wake_sleepers now s).tasks j) ≡ true)
      × (length (wake_sleepers now s).tasks ≡ length s.tasks)
      × (start_index (wake_sleepers now s) ≡ start_index s)
unfolding wake_sleepers start_index
wake_sleepers_keeps now s j r = (
  ground (arith, slot-map (wake_task now) s.tasks j),
  length-map _ s.tasks,
  ground (arith, length-map (map_option (wake_task now)) s.tasks),
)

quantum_kept :
    (now : ℕ) (s : Scheduler)
    → (demote_current (wake_sleepers now s)).quantum_ticks ≡ s.quantum_ticks
unfolding demote_current wake_sleepers
quantum_kept now s = ground arith

pub schedule-Chooses :
    {s : Scheduler} (now j : ℕ)
    → IsValid s
    → holds_ready (slot s.tasks j) ≡ true
    → Chooses now s (start_index s) j (schedule now s)
schedule-Chooses {s} now j v r = rw (schedule_step now s previous.0 previous.1) record {
  decision = c.decision;
  after = c.after;
  chosen = c.chosen;
  returned = c.returned;
  runs_chosen = c.runs_chosen;
  before = origin.0;
  held = origin.1;
  might_run = origin.3;
  task = c.task;
  same_task = c.same_task ∙ origin.2;
  runs_task = c.runs_task;
  is_running = c.is_running;
  named = c.named;
  in_range = rw (← size) c.in_range;
  same_size = c.same_size ∙ size;
  no_farther = rw (← size, ← start) c.no_farther;
  still_ready = c.still_ready;
  full_quantum = c.full_quantum ∙ quantum_kept now s;
}
  where
    woken : Scheduler
    woken = wake_sleepers now s

    ready : Scheduler
    ready = demote_current woken

    previous : (p : Option Task) × (current_task woken ≡ some p)
    previous = current_task-total (wake_sleepers-IsValid now v)

    w :
        (holds_ready (slot woken.tasks j) ≡ true)
        × (length woken.tasks ≡ length s.tasks)
        × (start_index woken ≡ start_index s)
    w = wake_sleepers_keeps now s j r

    d :
        (holds_ready (slot ready.tasks j) ≡ true)
        × (length ready.tasks ≡ length woken.tasks)
        × (start_index ready ≡ start_index woken)
    d = demote_current_keeps woken j w.0

    size : length ready.tasks ≡ length s.tasks
    size = d.1 ∙ w.1

    start : start_index ready ≡ start_index s
    start = d.2 ∙ w.2

    c : Chooses now ready (start_index ready) j (pick_next previous.0 ready)
    c = pick_next-Chooses now previous.0 ready j (ready-lt ready.tasks j d.0) d.0

    origin :
        (b : Task) × (slot s.tasks c.chosen ≡ some b)
        × (c.before.id ≡ b.id)
        × MayRun now s c.chosen b.state
    origin =
        let (d, held, same, may) = demoted_before now woken c.chosen c.before c.held c.might_run in
        let (b, first, its, might) = woken_before now s c.chosen d held may in
        (b, first, same ∙ its, might)
