-- ===== src/Runtime/Process/Access.antt =====
-- What a method does to the process that it names, and that it leaves the others alone.
use nix_os.Prelude.{
  ℕ, ◌-◌, ◌<◌, ◌≡◌, ◌≢◌, refl, ap, ◌∙◌, inl, inr, false, none, some, List, ◌++◌, arith, lt→ltb,
  ◌==◌, length, set, replicate, slot, is_none, is_some_and, position, position_found, slot-set,
  position-set_same, set-set_restore, length-set, Option-cases, take-append, slot_bound, Result, ok,
}
use nix_os.Prelude.Ids.{position_of_id}
use nix_os.Abi.{Error}
use nix_os.Runtime.Process.{
  ProcessId, Handle, Process, ProcessTable, find_process, get, with_process, directory,
  put_directory, is_bad_directory, set_current_directory, put_handle, allocate_handle, take_handle,
  close_handle,
}
use nix_os.Runtime.Process.Valid.{KeepsShape}
use nix_os.Runtime.Process.Shapes.{
  good_directory, put_directory-KeepsShape, put_handle-KeepsShape, take_handle-KeepsShape,
}

-- The process that an id names, with its slot.
get-slot :
    (id : ProcessId) (t : ProcessTable) (p : Process)
    → get id t ≡ some p
    → (i : ℕ) × (find_process id t ≡ some i) × (slot t.processes i ≡ some p) × (p.id ≡ id)
unfolding get find_process
get-slot id t p h = elim (Option-cases (find_process id t)) [
  | inl e ↦ absurd (ground arith)
  | inr (i, e) ↦
      let (q, at_i, same, lt) = position_of_id (λ (p : Process). p.id) id t.processes i e in
      let at_p : slot t.processes i ≡ some p = ground arith in (i, e, at_p, ground arith)
]

-- The outcome of a method on a process `p` that the table has: its result, and a table in which the
-- id names the new process and every other id names what it did.
pub record Works {A : Type 0} (id : ProcessId) (p : Process)
    (body : Process → Result Error A × Process) (t : ProcessTable)
    (out : Result Error A × ProcessTable) : Type 0 where
  pub result : out.0 ≡ (body p).0
  pub names : get id out.1 ≡ some (body p).1
  pub others : (j : ProcessId) → j ≢ id → get j out.1 ≡ get j t

-- the table after a write of `q` to slot `i`
abbrev put_at : ℕ → Process → ProcessTable → ProcessTable
put_at i q t = record t { processes = set t.processes i (some q) }

find-put_at :
    (i : ℕ) (p q : Process) (t : ProcessTable) (j : ProcessId)
    → slot t.processes i ≡ some p
    → q.id ≡ p.id
    → find_process j (put_at i q t) ≡ find_process j t
unfolding find_process
find-put_at i p q t j h same =
    position-set_same (is_some_and (λ r. r.id == j)) t.processes i (some q) (rw (h, same))

get-put_at_self :
    (i : ℕ) (p q : Process) (t : ProcessTable) (id : ProcessId)
    → find_process id t ≡ some i
    → slot t.processes i ≡ some p
    → q.id ≡ p.id
    → get id (put_at i q t) ≡ some q
unfolding get
get-put_at_self i p q t id at_i h same = ground (
  arith,
  find-put_at i p q t id h same,
  slot-set t.processes i i (some q),
  slot_bound t.processes i h,
)

get-put_at_ne :
    (i : ℕ) (p q : Process) (t : ProcessTable) (j : ProcessId)
    → slot t.processes i ≡ some p
    → q.id ≡ p.id
    → j ≢ p.id
    → get j (put_at i q t) ≡ get j t
unfolding get
get-put_at_ne i p q t j h same ne = elim (Option-cases (find_process j t)) [
  | inl e ↦ ground (arith, find-put_at i p q t j h same)
  | inr (k, e) ↦
      let (r, at_k, id_k, lt) =
        position_of_id (λ (r : Process). r.id) j t.processes k (unfold find_process in e) in
      let apart : k ≢ i = λ f. ne (ground arith) in
      ground (arith, find-put_at i p q t j h same, slot-set t.processes i k (some q))
]

with_process-found :
    {A : Type 0} (id : ProcessId) (p : Process) (body : Process → Result Error A × Process)
    (t : ProcessTable) (i : ℕ)
    → find_process id t ≡ some i
    → slot t.processes i ≡ some p
    → with_process id body t ≡ ((body p).0, put_at i (body p).1 t)
unfolding with_process
with_process-found id p body t i e h = rw (e, with_process) (rw h)

pub with_process-Works :
    {A : Type 0} (id : ProcessId) (p : Process) (body : Process → Result Error A × Process)
    (t : ProcessTable)
    → KeepsShape body
    → get id t ≡ some p
    → Works id p body t (with_process id body t)
with_process-Works id p body t k h =
    let (i, at_i, here, same) = get-slot id t p h in
    rw (with_process-found id p body t i at_i here) (record {
      result = refl;
      names = get-put_at_self i p (body p).1 t id at_i here (k.same_id p);
      others = λ j ne. get-put_at_ne i p (body p).1 t j here (k.same_id p) (λ e. ne (e ∙ same));
    })

-- `put_directory` of a good path, as one write.
stored : List ℕ → Process → Process
stored path p = record p {
  current_directory = path ++ replicate (128 - length path) 0;
  current_directory_length = length path;
}

put_directory_lem :
    (path : List ℕ) (p : Process)
    → is_bad_directory path ≡ false
    → put_directory path p ≡ (ok tt, stored path p)
unfolding put_directory stored
put_directory_lem path p good =
    let (some_byte, short, slash, clean) = good_directory path good in
    rw (put_directory, lt→ltb (length path) 256 (omega arith))

directory-stored : (path : List ℕ) (p : Process) → directory (stored path p) ≡ path
unfolding directory stored
directory-stored path p = take-append path _ (length path) refl

set_current_directory_good :
    (id : ProcessId) (path : List ℕ) (t : ProcessTable)
    → is_bad_directory path ≡ false
    → set_current_directory id path t ≡ with_process id (put_directory path) t
unfolding set_current_directory
set_current_directory_good id path t good = rw (good, set_current_directory)

-- Setting a directory that passes the guard succeeds for a process that the table has, and reading it
-- back gives the path; the handles stay, and so does what every other id names.
pub directory-set_current_directory :
    (id : ProcessId) (path : List ℕ) (t : ProcessTable) (p : Process)
    → get id t ≡ some p
    → is_bad_directory path ≡ false
    → let (r, t') = set_current_directory id path t in
      (q : Process) × (r ≡ ok tt)
      × (get id t' ≡ some q)
      × (directory q ≡ path)
      × (q.handles ≡ p.handles)
      × ((j : ProcessId) → j ≢ id → get j t' ≡ get j t)
unfolding stored
directory-set_current_directory id path t p h good =
    let w = with_process-Works id p (put_directory path) t (put_directory-KeepsShape path good) h in
    let e = put_directory_lem path p good in
    rw (set_current_directory_good id path t good) (
      stored path p,
      w.result ∙ ap (λ o. o.0) e,
      w.names ∙ ap (λ o. some o.1) e,
      directory-stored path p,
      refl,
      w.others,
    )

put_handle_lem :
    (h : Handle) (p : Process) (d : ℕ)
    → position is_none p.handles ≡ some d
    → put_handle h p ≡ (ok d, record p { handles = set p.handles d (some h) })
unfolding put_handle
put_handle_lem h p d free = rw (free, put_handle)

take_stored_handle :
    (h : Handle) (p : Process) (d : ℕ)
    → d < length p.handles
    → slot p.handles d ≡ none
    → take_handle d (record p { handles = set p.handles d (some h) }) ≡ (ok h, p)
unfolding take_handle
take_stored_handle h p d lt was =
    let there : slot (set p.handles d (some h)) d ≡ some h =
      ground (arith, slot-set p.handles d d (some h)) in
    let in_range : d < length (set p.handles d (some h)) =
      omega (arith, length-set p.handles d (some h)) in
    rw (lt→ltb d _ in_range, take_handle)
      (rw there
        (ap (λ hs. (ok h, record p { handles = hs })) (set-set_restore p.handles d (some h) was)))

take-put_handle :
    (h : Handle) (p : Process) (d : ℕ)
    → position is_none p.handles ≡ some d
    → take_handle d (put_handle h p).1 ≡ (ok h, p)
take-put_handle h p d free =
    let (lt, empty) = position_found is_none p.handles d free in
    let was : slot p.handles d ≡ none = ground arith in
    ap (λ o. take_handle d o.1) (put_handle_lem h p d free) ∙ take_stored_handle h p d lt was

-- A handle that is allocated gets the lowest free descriptor, and closing that descriptor returns the
-- handle and gives back the process as it was.
pub close-allocate :
    (id : ProcessId) (h : Handle) (t : ProcessTable) (p : Process) (d : ℕ)
    → get id t ≡ some p
    → position is_none p.handles ≡ some d
    → let (r, t') = allocate_handle id h t in
      let (r', t'') = close_handle id d t' in (r ≡ ok d) × (r' ≡ ok h) × (get id t'' ≡ some p)
unfolding allocate_handle close_handle
close-allocate id h t p d named free =
    let w = with_process-Works id p (put_handle h) t (put_handle-KeepsShape h) named in
    let w' =
      with_process-Works id (put_handle h p).1 (take_handle d) (with_process id (put_handle h) t).1
        (take_handle-KeepsShape d) w.names in
    let put = put_handle_lem h p d free in
    let back = take-put_handle h p d free in
    (
      w.result ∙ ap (λ o. o.0) put,
      w'.result ∙ ap (λ o. o.0) back,
      w'.names ∙ ap (λ o. some o.1) back,
    )
