-- ===== src/Runtime/Process/Valid.antt =====
-- The invariant of the process table.
use nix_os.Prelude.{
  ℕ, ◌^◌, ◌<◌, ◌≡◌, refl, inl, inr, Option, none, some, arith, length, get_or, slot, slot-set_all,
  Option-cases, length-replicate, Result, slot-replicate,
}
use nix_os.Prelude.Ids.{DistinctIds, DistinctIds-set_same, DistinctIds-empty}
use nix_os.Abi.{Error}
use nix_os.Runtime.Process.{
  ProcessId, Process, ProcessTable, new, new_process, find_process, with_process,
}

-- A process has `n` descriptors and an absolute directory that fits its array.
pub record IsProcess (n : ℕ) (p : Process) : Type 0 where
  pub handle_count : length p.handles ≡ n
  pub array : length p.current_directory ≡ 128
  pub fits : p.current_directory_length < 128
  pub nonempty : 0 < p.current_directory_length
  pub absolute : get_or p.current_directory 0 0 ≡ b'/'

pub record IsValid (t : ProcessTable) : Type 0 where
  pub ids : DistinctIds (λ (p : Process). p.id) t.processes t.next_id
  pub each : (i : ℕ) (p : Process) → slot t.processes i ≡ some p → IsProcess t.handle_slots p
  pub small_id : t.next_id < 2 ^ 32

pub new-IsValid : (processes handles : ℕ) → IsValid (new processes handles)
unfolding new
new-IsValid processes handles = record {
  ids = DistinctIds-empty _ processes 1;
  each = λ i p e. absurd (ground (arith, slot-replicate {A = Process} processes i));
  small_id = omega arith;
}

pub new_process-IsProcess :
    (id : ℕ) (parent : Option ProcessId) (space entry stack handles : ℕ)
    → IsProcess handles (new_process id parent space entry stack handles)
unfolding new_process
new_process-IsProcess id parent space entry stack handles = record {
  handle_count = length-replicate handles none;
  array = refl;
  fits = omega arith;
  nonempty = omega arith;
  absolute = refl;
}

-- A body that keeps the id and the shape of its process.
pub record KeepsShape {A : Type 0} (body : Process → Result Error A × Process) : Type 0 where
  pub same_id : (p : Process) → (body p).1.id ≡ p.id
  pub shape : (n : ℕ) (p : Process) → IsProcess n p → IsProcess n (body p).1

pub with_process-IsValid :
    {A : Type 0} {t : ProcessTable} (id : ProcessId) (body : Process → Result Error A × Process)
    → KeepsShape body
    → IsValid t
    → IsValid (with_process id body t).1
unfolding with_process
with_process-IsValid {t = t} id body k v = elim (Option-cases (find_process id t)) [
  | inl e ↦ rw (e, with_process) v
  | inr (i, e) ↦ elim (Option-cases (slot t.processes i)) [
    | inl h ↦ rw (e, with_process) (rw h v)
    | inr (p, h) ↦
        rw (e, with_process)
          (rw h (record {
            ids = DistinctIds-set_same _ t.processes t.next_id i p _ v.ids h (k.same_id p);
            each = λ j q f.
                slot-set_all (IsProcess t.handle_slots) t.processes i j (body p).1 q v.each
                  (k.shape _ p (v.each i p h)) f;
            small_id = v.small_id;
          }))
  ]
]
