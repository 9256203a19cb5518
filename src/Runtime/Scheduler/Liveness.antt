-- ===== src/Runtime/Scheduler/Liveness.antt =====
-- Round robin over many calls: no ready task waits for ever.
use nix_os.Prelude.{
  ℕ, ◌-◌, ◌≤◌, ◌<◌, ◌≡◌, ◌≢◌, refl, ap, ◌∙◌, true, Option, none, some, List, [], ◌∷◌, ◌++◌, arith,
  length, slot,
}
use native.Mathlib.Decide.{ℕ_discrete}
use nix_os.Runtime.Scheduler.{Scheduler, ScheduleDecision, holds_ready, start_index, schedule}
use nix_os.Runtime.Scheduler.Valid.{IsValid}
use nix_os.Runtime.Scheduler.Steps.{Returns, schedule-Returns}
use nix_os.Runtime.Scheduler.Ahead.{ahead, ahead-lt, ahead_closer}
use nix_os.Runtime.Scheduler.Policy.{
  ready-lt, start_index-lt, start_index_at, Chooses, schedule-Chooses,
}

-- The current slot after each of a row of calls of `schedule`.
pub reschedule : List ℕ → Scheduler → Option (List (Option ℕ))
reschedule [] s = some []
reschedule (now ∷ nows) s = elim (schedule now s) [
  | none ↦ none
  | some (d, s') ↦ elim (reschedule nows s') [ none ↦ none | some cs ↦ some (s'.current ∷ cs) ]
]

-- The row of slots has `j` in it, after at most `wait` others.
pub record Reaches (j wait : ℕ) (row : Option (List (Option ℕ))) : Type 0 where
  pub before : List (Option ℕ)
  pub rest : List (Option ℕ)
  pub returned : row ≡ some (before ++ some j ∷ rest)
  pub soon : length before ≤ wait

reschedule_one :
    (now : ℕ) (nows : List ℕ) (s s' : Scheduler) (d : ScheduleDecision) (cs : List (Option ℕ))
    → schedule now s ≡ some (d, s')
    → reschedule nows s' ≡ some cs
    → reschedule (now ∷ nows) s ≡ some (s'.current ∷ cs)
unfolding reschedule
reschedule_one now nows s s' d cs e f = ground arith

reschedule-total :
    (nows : List ℕ) {s : Scheduler}
    → IsValid s
    → (cs : List (Option ℕ)) × (reschedule nows s ≡ some cs)
unfolding reschedule
reschedule-total [] v = ([], refl)
reschedule-total (now ∷ nows) {s} v =
    let r = schedule-Returns now v in
    let (cs, e) = reschedule-total nows r.valid in
    (r.after.current ∷ cs, reschedule_one now nows s r.after r.result cs r.returned e)

reschedule-Reaches :
    (nows : List ℕ) {s : Scheduler} (j wait : ℕ)
    → IsValid s
    → holds_ready (slot s.tasks j) ≡ true
    → ahead (length s.tasks) (start_index s) j ≤ wait
    → wait < length nows
    → Reaches j wait (reschedule nows s)
reschedule-Reaches [] j wait v r far lt = absurd (omega arith)
reschedule-Reaches (now ∷ nows) {s} j wait v r far lt = elim (ℕ_discrete c.chosen j) [
  | yes e ↦
      let (cs, f) = reschedule-total nows valid in
      record {
        before = [];
        rest = cs;
        returned =
            reschedule_one now nows s c.after c.decision cs c.returned f
            ∙ ap (λ k. some (k ∷ cs)) (c.runs_chosen ∙ ap some e);
        soon = omega arith;
      }
  | no ne ↦
      let further =
        reschedule-Reaches nows j (wait - 1) valid (c.still_ready ne) (omega (arith, closer ne))
          (omega (arith, closer ne)) in
      record {
        before = c.after.current ∷ further.before;
        rest = further.rest;
        returned = reschedule_one now nows s c.after c.decision _ c.returned further.returned;
        soon = omega (arith, further.soon, closer ne);
      }
]
  where
    c : Chooses now s (start_index s) j (schedule now s)
    c = schedule-Chooses now j v r

    ret : Returns s.next_id (schedule now s)
    ret = schedule-Returns now v

    same : ret.after ≡ c.after
    same = ground (arith, ret.returned, c.returned)

    valid : IsValid c.after
    valid = rw same at ret.valid

    hj : j < length s.tasks
    hj = ready-lt s.tasks j r

    closer :
        c.chosen ≢ j
        → ahead (length c.after.tasks) (start_index c.after) j
          < ahead (length s.tasks) (start_index s) j
    closer ne =
        rw (start_index_at c.after c.chosen c.runs_chosen, c.same_size)
          (ahead_closer (length s.tasks) (start_index s) c.chosen j
            (start_index-lt s (omega (arith, hj))) c.in_range hj ne c.no_farther)

-- No ready task waits for ever: if slot `j` of a valid scheduler is ready, then of `TASKS` or more
-- successive calls of `schedule`, at whatever times, none panics, and one of the first `TASKS` makes
-- `j` the current slot.
pub ready_task_runs :
    (nows : List ℕ) {s : Scheduler} (j : ℕ)
    → IsValid s
    → holds_ready (slot s.tasks j) ≡ true
    → length s.tasks ≤ length nows
    → Reaches j (length s.tasks - 1) (reschedule nows s)
ready_task_runs nows {s} j v r enough =
    reschedule-Reaches nows j (length s.tasks - 1) v r (omega (arith, near)) (omega (arith, hj))
  where
    hj : j < length s.tasks
    hj = ready-lt s.tasks j r

    near : ahead (length s.tasks) (start_index s) j < length s.tasks
    near = ahead-lt (length s.tasks) (start_index s) j (start_index-lt s (omega (arith, hj))) hj
