-- ===== src/Runtime/Scheduler/Scan.antt =====
-- `find_ready_from`: the circular search for a ready task.
use nix_os.Prelude.{
  ℕ, zero, suc, ◌+◌, ◌-◌, ◌%◌, ◌≤◌, ◌<◌, ◌≡◌, true, false, Option, none, some, List, arith, length,
  slot, Bool-cases, inl, inr,
}
use native.Mathlib.Decide.{dec_lt}
use native.Mathlib.Nat.{mod-eq_of_lt, mod-eq-sub-mod}
use nix_os.Runtime.Scheduler.{Task, Scheduler, holds_ready, scan_ready, find_ready_from}

-- The slot that the scan finds holds a ready task, `distance` offsets on, and no nearer slot does.
pub record FirstReady (tasks : List (Option Task)) (start offset bound i : ℕ) : Type 0 where
  pub distance : ℕ
  pub far : offset ≤ distance
  pub near : distance < bound
  pub at_slot : i ≡ (start + distance) % length tasks
  pub is_ready_there : holds_ready (slot tasks i) ≡ true
  pub nearest :
      (k : ℕ)
      → offset ≤ k
      → k < distance
      → holds_ready (slot tasks ((start + k) % length tasks)) ≡ false

pub scan_ready_found :
    (tasks : List (Option Task)) (start n offset i : ℕ)
    → scan_ready tasks start n offset ≡ some i
    → FirstReady tasks start offset (offset + n) i
unfolding scan_ready
scan_ready_found tasks start zero offset i h = cc
scan_ready_found tasks start (suc n) offset i h =
    elim (Bool-cases (holds_ready (slot tasks ((start + offset) % length tasks)))) [
      | inl here ↦ record {
        distance = offset;
        far = omega arith;
        near = omega arith;
        at_slot = ground arith;
        is_ready_there = ground arith;
        nearest = λ k lo hi. absurd (omega arith);
      }
      | inr away ↦
          let rest : FirstReady tasks start (offset + 1) (offset + 1 + n) i =
            scan_ready_found tasks start n (offset + 1) i (ground arith) in
          record {
            distance = rest.distance;
            far = omega (arith, rest.far);
            near = omega (arith, rest.near);
            at_slot = rest.at_slot;
            is_ready_there = rest.is_ready_there;
            nearest = λ k lo hi. nearest_from tasks start offset k away (rest.nearest k) lo hi;
          }
    ]
  where
    nearest_from :
        (tasks : List (Option Task)) (start offset k : ℕ) {d : ℕ}
        → holds_ready (slot tasks ((start + offset) % length tasks)) ≡ false
        → (offset + 1 ≤ k → k < d → holds_ready (slot tasks ((start + k) % length tasks)) ≡ false)
        → offset ≤ k
        → k < d
        → holds_ready (slot tasks ((start + k) % length tasks)) ≡ false
    nearest_from tasks start offset k away rest lo hi = ground arith

pub scan_ready_missing :
    (tasks : List (Option Task)) (start n offset k : ℕ)
    → scan_ready tasks start n offset ≡ none
    → offset ≤ k
    → k < offset + n
    → holds_ready (slot tasks ((start + k) % length tasks)) ≡ false
unfolding scan_ready
scan_ready_missing tasks start zero offset k h lo hi = absurd (omega arith)
scan_ready_missing tasks start (suc n) offset k h lo hi =
    ground (arith, scan_ready_missing tasks start n (offset + 1) k)

pub find_ready_from_found :
    (s : Scheduler) (start i : ℕ)
    → find_ready_from s start ≡ some i
    → FirstReady s.tasks start 0 (0 + length s.tasks) i
unfolding find_ready_from
find_ready_from_found s start i h =
    scan_ready_found s.tasks start (length s.tasks) 0 i (ground arith)

-- The slot before the start is reached past the end of the array.
around : {n j start : ℕ} → j < n → start < n → j < start → (start + (j + n - start)) % n ≡ j
around {n} {j} {start} lt lt' p =
    let e : start + (j + n - start) ≡ j + n = omega arith in
    let back : j + n - n ≡ j = omega arith in
    rw (e, mod-eq-sub-mod {n = j + n} {m = n} (omega arith), back) (mod-eq_of_lt lt)

-- A search that fails has seen every slot.
pub find_ready_from_missing :
    (s : Scheduler) (start j : ℕ)
    → start < length s.tasks
    → find_ready_from s start ≡ none
    → j < length s.tasks
    → holds_ready (slot s.tasks j) ≡ false
unfolding find_ready_from
find_ready_from_missing s start j lt h hj = elim (dec_lt j start) [
  | yes p ↦
      let e : (start + (j + n - start)) % n ≡ j = around hj lt p in
      rw e at
        (scan_ready_missing s.tasks start n 0 (j + n - start) miss (omega arith) (omega arith))
  | no p ↦
      let e : (start + (j - start)) % n ≡ j =
        let there : start + (j - start) ≡ j = omega arith in rw there (mod-eq_of_lt hj) in
      rw e at (scan_ready_missing s.tasks start n 0 (j - start) miss (omega arith) (omega arith))
]
  where
    n : ℕ
    n = length s.tasks

    miss : scan_ready s.tasks start n 0 ≡ none
    miss = ground arith
