-- ===== src/Runtime/Scheduler/Origin.antt =====
-- What the task that `schedule` runs was before it woke the sleepers and put the current task back.
use nix_os.Prelude.{
  ℕ, ◌≤◌, ◌≡◌, ◌==◌, refl, sym, ap, Bool-cases, ◌∙◌, ◌⊎◌, inl, inr, true, Option, some, List, arith,
  slot, set, map_option, slot-set, slot-map, slot_bound, Option-cases,
}
use nix_os.Runtime.Scheduler.{
  Task, TaskState, is_running, Scheduler, wake_sleepers, wake_task, wake_state, demote_current,
  demote_task,
}

-- A task in this state may be run: it is ready, or a sleeper whose tick has come, or the current task.
unfoldable pub MayRun : (now : ℕ) → Scheduler → (i : ℕ) → TaskState → Type 0
MayRun now s i st =
    (st ≡ TaskState.ready)
    ⊎ (((tick : ℕ) × (st ≡ TaskState.sleeping tick) × (tick ≤ now))
        ⊎ ((s.current ≡ some i) × (st ≡ TaskState.running)))

-- A task that may be run once the sleepers are woken, or the current one is put back, might be run before.
woken-MayRun :
    (now : ℕ) (s : Scheduler) (i : ℕ) (st : TaskState)
    → MayRun now (wake_sleepers now s) i (wake_state now st)
    → MayRun now s i st
unfolding MayRun wake_sleepers
woken-MayRun now s i TaskState.ready m = inl refl
woken-MayRun now s i TaskState.running m = ground (arith, m)
woken-MayRun now s i (TaskState.sleeping tick) m = ground (arith, m)
woken-MayRun now s i TaskState.blocked m = ground (arith, m)
woken-MayRun now s i (TaskState.exited status) m = ground (arith, m)

pub woken_before :
    (now : ℕ) (s : Scheduler) (i : ℕ) (t : Task)
    → slot (wake_sleepers now s).tasks i ≡ some t
    → MayRun now (wake_sleepers now s) i t.state
    → (b : Task) × (slot s.tasks i ≡ some b) × (t.id ≡ b.id) × MayRun now s i b.state
unfolding wake_sleepers
woken_before now s i t h m = elim (Option-cases (slot s.tasks i)) [
  | inl e ↦ absurd (ground (arith, slot-map (wake_task now) s.tasks i))
  | inr (b, e) ↦
      let same : wake_task now b ≡ t = ground (arith, slot-map (wake_task now) s.tasks i) in
      (b, e, ap (λ x. x.id) (sym same), woken-MayRun now s i b.state (rw (sym same) at m))
]

is_running-eq : (st : TaskState) → is_running st ≡ true → st ≡ TaskState.running
is_running-eq st h = ground arith

demote_task_id : (b : Task) → (demote_task b).id ≡ b.id
demote_task_id b = ground arith

put_back-MayRun :
    (now : ℕ) (s : Scheduler) (i : ℕ) (b : Task)
    → s.current ≡ some i
    → MayRun now s i (demote_task b).state
    → MayRun now s i b.state
unfolding MayRun
put_back-MayRun now s i b here m = elim (Bool-cases (is_running b.state)) [
  | inl runs ↦ inr (inr (here, is_running-eq b.state runs))
  | inr rests ↦ let same : demote_task b ≡ b = rw rests refl in rw same at m
]

demote_current-MayRun :
    (now : ℕ) (s : Scheduler) (i : ℕ) (st : TaskState)
    → MayRun now (demote_current s) i st
    → MayRun now s i st
unfolding MayRun demote_current
demote_current-MayRun now s i st m = elim (Option-cases s.current) [
  | inl e ↦ ground (arith, e, m)
  | inr (c, e) ↦ ground (arith, e, m)
]

set_by :
    (f : Task → Task) (xs : List (Option Task)) (i : ℕ) (b t : Task)
    → slot xs i ≡ some b
    → slot (set xs i (map_option f (slot xs i))) i ≡ some t
    → f b ≡ t
set_by f xs i b t x h =
    ground (arith, x, h, slot_bound xs i x, slot-set xs i i (map_option f (slot xs i)))

slot-demote_current :
    (s : Scheduler) (i : ℕ) (t : Task)
    → slot (demote_current s).tasks i ≡ some t
    → (slot s.tasks i ≡ some t)
      ⊎ ((b : Task) × (slot s.tasks i ≡ some b) × (s.current ≡ some i) × (demote_task b ≡ t))
unfolding demote_current
slot-demote_current s i t h = elim (Option-cases s.current) [
  | inl e ↦ inl (ground (arith, h))
  | inr (c, e) ↦
      let v : Option Task = map_option demote_task (slot s.tasks c) in
      let there : slot (set s.tasks c v) i ≡ some t = rw e at h in
      elim (Bool-cases (c == i)) [
        | inr away ↦ inl (ground (arith, slot-set s.tasks c i v, away))
        | inl same ↦ go c i e there (ground (arith, same))
      ]
]
  where
    go :
        (c i : ℕ)
        → s.current ≡ some c
        → slot (set s.tasks c (map_option demote_task (slot s.tasks c))) i ≡ some t
        → c ≡ i
        → (slot s.tasks i ≡ some t)
          ⊎ ((b : Task) × (slot s.tasks i ≡ some b) × (s.current ≡ some i) × (demote_task b ≡ t))
    go c i e h same = elim (Option-cases (slot s.tasks i)) [
      | inl x ↦
          absurd (ground (arith, slot-set s.tasks c i (map_option demote_task (slot s.tasks c))))
      | inr (b, x) ↦ inr (b, x, e ∙ ap some same, set_by demote_task s.tasks i b t x (rw same at h))
    ]

pub demoted_before :
    (now : ℕ) (s : Scheduler) (i : ℕ) (t : Task)
    → slot (demote_current s).tasks i ≡ some t
    → MayRun now (demote_current s) i t.state
    → (b : Task) × (slot s.tasks i ≡ some b) × (t.id ≡ b.id) × MayRun now s i b.state
demoted_before now s i t h m = elim (slot-demote_current s i t h) [
  | inl held ↦ (t, held, refl, demote_current-MayRun now s i t.state m)
  | inr (b, held, here, same) ↦ (
    b,
    held,
    ap (λ x. x.id) (sym same) ∙ demote_task_id b,
    put_back-MayRun now s i b here (rw (sym same) at (demote_current-MayRun now s i t.state m)),
  )
]
