-- ===== src/Runtime/Scheduler.antt =====
-- crates/nexos-runtime/src/scheduler.rs: the round-robin scheduler of `Scheduler<TASKS>`.
-- The array `[Option<Task>; TASKS]` is a list of optional tasks, and `TASKS` is its length. A method
-- that can panic, at an index out of range or at `expect`, returns `none` for the panic.
mod Types
pub mod Valid
pub mod Scan
pub mod Steps
pub mod Table
pub mod Runs
pub mod Ahead
pub mod Origin
pub mod Policy
pub mod Liveness
pub mod Effects
mod Tests
pub use Types.*
use nix_os.Prelude.{
  ℕ, zero, suc, ◌+◌, ◌-◌, ◌%◌, ◌^◌, max, Bool, true, false, ◌&&◌, Option, none, some, List, [], ◌∷◌,
  map, ltb, leb, ◌==◌, if◌then◌else◌, length, set, replicate, slot, index, is_none, is_some_and,
  map_option, position, flatten, Result, ok, err,
}
use nix_os.Prelude.Int.{ℤ}

pub with_quantum : ℕ → ℕ → Scheduler
with_quantum slots quantum = record {
  tasks = replicate slots none;
  next_id = 1;
  current = none;
  quantum_ticks = quantum;
  remaining_ticks = quantum;
  context_switches = 0;
}

pub new : ℕ → ℕ → Result SchedulerError Scheduler
new slots quantum = if quantum == 0 then err invalid_quantum else ok (with_quantum slots quantum)

-- `checked_add(1).unwrap_or(1)` on `u32`
abbrev pub following_id : ℕ → ℕ
following_id n = if ltb (n + 1) (2 ^ 32) then n + 1 else 1

-- `Task { id, process_id, state: Ready, context }`
abbrev pub fresh_task : TaskId → ℕ → CpuContext → Task
fresh_task id process_id context = record {
  id = id;
  process_id = process_id;
  state = ready;
  context = context;
}

pub spawn : ℕ → CpuContext → Scheduler → Result SchedulerError TaskId × Scheduler
spawn process_id context s = elim (position is_none s.tasks) [
  | none ↦ (err full, s)
  | some i ↦ (
    ok s.next_id,
    record s {
      tasks = set s.tasks i (some (fresh_task s.next_id process_id context));
      next_id = following_id s.next_id;
    },
  )
]

-- `self.current.and_then(|index| self.tasks[index])`
pub current_task : Scheduler → Option (Option Task)
current_task s = elim s.current [ none ↦ some none | some i ↦ index s.tasks i ]

abbrev pub has_id : TaskId → Task → Bool
has_id id t = t.id == id

-- the first slot whose task has this id
pub find_id : TaskId → Scheduler → Option ℕ
find_id id s = position (is_some_and (has_id id)) s.tasks

pub task : TaskId → Scheduler → Option Task
task id s = elim (find_id id s) [ none ↦ none | some i ↦ slot s.tasks i ]

pub task_count : Scheduler → ℕ
task_count s = length (flatten s.tasks)

-- a sleeper whose tick has come is ready
abbrev pub wake_state : ℕ → TaskState → TaskState
wake_state now (sleeping tick) = if leb tick now then ready else sleeping tick
wake_state now st = st

abbrev pub wake_task : ℕ → Task → Task
wake_task now t = record t { state = wake_state now t.state }

pub wake_sleepers : ℕ → Scheduler → Scheduler
wake_sleepers now s = record s { tasks = map (map_option (wake_task now)) s.tasks }

abbrev pub holds_ready : Option Task → Bool
holds_ready = is_some_and (λ t. is_ready t.state)

-- `(0..TASKS).map(|offset| (start + offset) % TASKS).find(ready)`: `n` offsets are left.
pub scan_ready : List (Option Task) → ℕ → ℕ → ℕ → Option ℕ
scan_ready tasks start zero offset = none
scan_ready tasks start (suc n) offset =
    let i = (start + offset) % length tasks in
    if holds_ready (slot tasks i) then some i else scan_ready tasks start n (offset + 1)

pub find_ready_from : Scheduler → ℕ → Option ℕ
find_ready_from s start =
    if length s.tasks == 0 then none else scan_ready s.tasks start (length s.tasks) 0

abbrev pub demote_task : Task → Task
demote_task t = if is_running t.state then set_state ready t else t

-- `if let Some(index) = self.current && let Some(task) = &mut self.tasks[index] && Running`
pub demote_current : Scheduler → Scheduler
demote_current s = elim s.current [
  | none ↦ s
  | some i ↦ record s { tasks = set s.tasks i (map_option demote_task (slot s.tasks i)) }
]

-- `self.current.map_or(0, |index| (index + 1) % TASKS.max(1))`
pub start_index : Scheduler → ℕ
start_index s = elim s.current [ none ↦ 0 | some i ↦ (i + 1) % max (length s.tasks) 1 ]

-- `context_switches.saturating_add(1)` on `u64`
abbrev pub saturating_succ : ℕ → ℕ
saturating_succ n = if ltb (n + 1) (2 ^ 64) then n + 1 else n

abbrev pub same_id : Option Task → TaskId → Bool
same_id none id = false
same_id (some t) id = t.id == id

abbrev pub id_of : Option Task → Option TaskId
id_of none = none
id_of (some t) = some t.id

-- what `schedule` does once `next_index` holds `next_task`
pub run_task : Option Task → ℕ → Task → Scheduler → ScheduleDecision × Scheduler
run_task previous i t s =
    let s' : Scheduler = record s {
      tasks = set s.tasks i (some (set_state running t));
      current = some i;
      remaining_ticks = s.quantum_ticks;
    } in
    if same_id previous t.id then (continue_task t.id, s') else (
      switch_task (id_of previous) t.id,
      record s' { context_switches = saturating_succ s.context_switches },
    )

-- `find_ready_from`, its `else`, and `expect("ready task exists")`
pub pick_next : Option Task → Scheduler → Option (ScheduleDecision × Scheduler)
pick_next previous s = elim (find_ready_from s (start_index s)) [
  | none ↦ some (idle, record s { current = none })
  | some i ↦ elim (slot s.tasks i) [ none ↦ none | some t ↦ some (run_task previous i t s) ]
]

pub schedule : ℕ → Scheduler → Option (ScheduleDecision × Scheduler)
schedule now s =
    let woken = wake_sleepers now s in
    elim (current_task woken) [
      | none ↦ none
      | some previous ↦ pick_next previous (demote_current woken)
    ]

-- the end of `tick`, for a current task that is running
pub count_down : ℕ → Task → Scheduler → Option (ScheduleDecision × Scheduler)
count_down now t s =
    let s' : Scheduler = record s { remaining_ticks = s.remaining_ticks - 1 } in
    if s'.remaining_ticks == 0 then schedule now s' else some (continue_task t.id, s')

pub tick : ℕ → Scheduler → Option (ScheduleDecision × Scheduler)
tick now s =
    let woken = wake_sleepers now s in
    elim woken.current [
      | none ↦ schedule now woken
      | some i ↦ elim (index woken.tasks i) [
        | none ↦ none
        | some none ↦ schedule now (record woken { current = none })
        | some (some t) ↦ if is_running t.state then count_down now t woken else schedule now woken
      ]
    ]

-- the shared body of `sleep_current`, `block_current` and `exit_current`
pub stop_current : TaskState → Scheduler → Option (Result SchedulerError TaskId × Scheduler)
stop_current st s = elim s.current [
  | none ↦ some (err no_current_task, s)
  | some i ↦ elim (index s.tasks i) [
    | none ↦ none
    | some none ↦ some (err no_current_task, s)
    | some (some t) ↦
        some (ok t.id, record s { tasks = set s.tasks i (some (set_state st t)); current = none })
  ]
]

pub sleep_current : ℕ → Scheduler → Option (Result SchedulerError TaskId × Scheduler)
sleep_current wake_tick s = stop_current (sleeping wake_tick) s

pub block_current : Scheduler → Option (Result SchedulerError TaskId × Scheduler)
block_current s = stop_current blocked s

pub exit_current : ℤ → Scheduler → Option (Result SchedulerError TaskId × Scheduler)
exit_current status s = stop_current (exited status) s

abbrev pub unblock : TaskState → TaskState
unblock blocked = ready
unblock (sleeping _) = ready
unblock st = st

pub wake : TaskId → Scheduler → Result SchedulerError Unit × Scheduler
wake id s = elim (find_id id s) [
  | none ↦ (err task_not_found, s)
  | some i ↦ (
    ok tt,
    record s {
      tasks = set s.tasks i (map_option (λ t. set_state (unblock t.state) t) (slot s.tasks i));
    },
  )
]

-- `self.current.is_some_and(|index| self.tasks[index].is_some_and(|task| task.id == id))`
pub current_has_id : TaskId → Scheduler → Option Bool
current_has_id id s = elim (current_task s) [
  | none ↦ none
  | some t ↦ some (is_some_and (has_id id) t)
]

pub exit_task : TaskId → ℤ → Scheduler → Option (Result SchedulerError Unit × Scheduler)
exit_task id status s = elim (find_id id s) [
  | none ↦ some (err task_not_found, s)
  | some i ↦
      let s' : Scheduler = record s {
        tasks = set s.tasks i (map_option (set_state (exited status)) (slot s.tasks i));
      } in
      elim (current_has_id id s') [
        | none ↦ none
        | some stops ↦ some (ok tt, if stops then record s' { current = none } else s')
      ]
]

pub reap : TaskId → Scheduler → Result SchedulerError Task × Scheduler
reap id s = elim (find_id id s) [
  | none ↦ (err task_not_found, s)
  | some i ↦ elim (slot s.tasks i) [
    | none ↦ (err task_not_found, s)
    | some t ↦
        if is_exited t.state
        then (ok t, record s { tasks = set s.tasks i none })
        else (err task_not_found, s)
  ]
]
