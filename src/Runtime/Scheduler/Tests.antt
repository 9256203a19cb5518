-- ===== src/Runtime/Scheduler/Tests.antt =====
-- crates/nexos-runtime/src/scheduler.rs on concrete tables, and its theorems at them.
use nix_os.Prelude.{◌≡◌, refl, none, some, [], ◌∷◌, arith, ok, err, position, flatten}
use nix_os.Prelude.Int.{pos}
use nix_os.Runtime.Scheduler.{
  Task, TaskState, CpuContext, Scheduler, SchedulerError, ScheduleDecision, fresh_task, new,
  with_quantum, spawn, schedule, task, task_count, wake_sleepers, find_ready_from, scan_ready,
  current_task, demote_current, start_index, pick_next, run_task, find_id,
}
use nix_os.Runtime.Scheduler.Valid.{IsValid, with_quantum-IsValid}
use nix_os.Runtime.Scheduler.Table.{spawn-IsValid}
use nix_os.Runtime.Scheduler.Steps.{schedule-Returns}
use nix_os.Runtime.Scheduler.Runs.{Call, calls, calls_safe}
use nix_os.Runtime.Scheduler.Liveness.{Reaches, reschedule, ready_task_runs}

abbrev context : CpuContext
context = record {
  r15 = 0;
  r14 = 0;
  r13 = 0;
  r12 = 0;
  rbx = 0;
  rbp = 0;
  instruction_pointer = 0x1000;
  stack_pointer = 0x8000;
  flags = 0x202;
  address_space = 1;
}

abbrev first_task : Task
first_task = fresh_task 1 7 context

abbrev second_task : Task
second_task = fresh_task 2 8 context

abbrev empty : Scheduler
empty = record {
  tasks = none ∷ none ∷ none ∷ [];
  next_id = 1;
  current = none;
  quantum_ticks = 2;
  remaining_ticks = 2;
  context_switches = 0;
}

abbrev loaded : Scheduler
loaded = record empty { tasks = some first_task ∷ some second_task ∷ none ∷ []; next_id = 3 }

-- `loaded` after its first `schedule`
abbrev busy : Scheduler
busy = record loaded {
  tasks = some (record first_task { state = TaskState.running }) ∷ some second_task ∷ none ∷ [];
  current = some 0;
  context_switches = 1;
}

new_limits : (new 3 0 ≡ err SchedulerError.invalid_quantum) × (new 3 2 ≡ ok empty)
unfolding new with_quantum
new_limits = (refl, refl)

empty-IsValid : IsValid empty
unfolding with_quantum
empty-IsValid = with_quantum-IsValid 3 2

loaded-IsValid : IsValid loaded
unfolding spawn position
loaded-IsValid =
    spawn-IsValid 8 context (omega arith) (spawn-IsValid 7 context (omega arith) empty-IsValid)

counts : (task_count loaded ≡ 2) × (task 2 loaded ≡ some second_task) × (task 3 loaded ≡ none)
unfolding task_count task find_id position flatten
counts = (refl, refl, refl)

runs_first : schedule 0 loaded ≡ some (ScheduleDecision.switch_task none 1, busy)
unfolding schedule wake_sleepers current_task demote_current pick_next find_ready_from scan_ready
    start_index run_task
runs_first = refl

busy-IsValid : IsValid busy
busy-IsValid =
    let r = schedule-Returns 0 loaded-IsValid in
    let same : r.after ≡ busy = ground (arith, r.returned, runs_first) in rw same at r.valid

calls_safe_example :
    (s : Scheduler) × (calls
        (Call.spawns 7 context ∷ Call.ticks 0 ∷ Call.exits (pos 0) ∷ Call.reaps 1 ∷ [])
        (with_quantum 1 4)
      ≡ some s)
    × IsValid s
calls_safe_example =
    calls_safe 1 4 (Call.spawns 7 context ∷ Call.ticks 0 ∷ Call.exits (pos 0) ∷ Call.reaps 1 ∷ [])
      (omega arith)

ready_task_runs_example : Reaches 1 2 (reschedule (0 ∷ 1 ∷ 2 ∷ []) busy)
ready_task_runs_example = ready_task_runs (0 ∷ 1 ∷ 2 ∷ []) 1 busy-IsValid refl (omega arith)

-- a quantum with one tick left
abbrev ending : Scheduler
ending = record busy { remaining_ticks = 1 }

ending-IsValid : IsValid ending
ending-IsValid = record {
  ids = busy-IsValid.ids;
  runner = busy-IsValid.runner;
  small_id = omega arith;
  in_quantum = omega arith;
}
