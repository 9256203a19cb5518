-- ===== src/Runtime/Process/Shapes.antt =====
-- The bodies of the table's methods keep the shape of a process.
use nix_os.Prelude.{
  contains, ℕ, ◌-◌, ◌<◌, ◌≡◌, refl, ◌∙◌, inl, inr, false, none, some, List, [], ◌∷◌, ◌++◌, arith,
  lt→ltb, length, get_or, replicate, is_none, position, Option-cases, length-set, length-map,
  length-append, length-replicate,
}
use nix_os.Prelude.Int.{ℤ}
use nix_os.Runtime.Process.{
  ProcessState, Handle, put_state, put_directory, is_bad_directory, put_handle, take_handle,
  end_process,
}
use nix_os.Runtime.Process.Valid.{KeepsShape}

pub put_state-KeepsShape : (st : ProcessState) → KeepsShape (put_state st)
unfolding put_state
put_state-KeepsShape st = record { same_id = λ p. refl; shape = λ n p v. ground arith }

-- A path that passes the guard is absolute and shorter than the array.
pub good_directory :
    (path : List ℕ)
    → is_bad_directory path ≡ false
    → (0 < length path) × (length path < 128) × (get_or path 0 0 ≡ b'/') × (contains 0 path ≡ false)
unfolding is_bad_directory
good_directory path h = ground arith

get_or-append : (xs ys : List ℕ) → 0 < length xs → get_or (xs ++ ys) 0 0 ≡ get_or xs 0 0
get_or-append [] ys h = absurd (omega arith)
get_or-append (x ∷ xs) ys h = refl

pub put_directory-KeepsShape :
    (path : List ℕ) → is_bad_directory path ≡ false → KeepsShape (put_directory path)
unfolding put_directory
put_directory-KeepsShape path ok_path =
    let (some_byte, short, slash, clean) = good_directory path ok_path in
    record {
      same_id = λ p. ground arith;
      shape = λ n p v.
          rw (put_directory, lt→ltb (length path) 256 (omega arith))
            (record {
              handle_count = v.handle_count;
              array = omega (
                arith,
                length-append {0} path (replicate (128 - length path) 0),
                length-replicate {0} {A = ℕ} (128 - length path) 0,
              );
              fits = short;
              nonempty = some_byte;
              absolute = get_or-append path _ some_byte ∙ slash;
            });
    }

pub put_handle-KeepsShape : (h : Handle) → KeepsShape (put_handle h)
unfolding put_handle
put_handle-KeepsShape h = record {
  same_id = λ p. ground arith;
  shape = λ n p v. elim (Option-cases (position is_none p.handles)) [
    | inl e ↦ rw (e, put_handle) v
    | inr (i, e) ↦
        rw (e, put_handle)
          (record {
            handle_count = length-set p.handles i (some h) ∙ v.handle_count;
            array = v.array;
            fits = v.fits;
            nonempty = v.nonempty;
            absolute = v.absolute;
          })
  ];
}

pub take_handle-KeepsShape : (d : ℕ) → KeepsShape (take_handle d)
unfolding take_handle
take_handle-KeepsShape d = record {
  same_id = λ p. ground arith;
  shape = λ n p v. ground (arith, length-set p.handles d none);
}

pub end_process-KeepsShape : (status : ℤ) → KeepsShape (end_process status)
unfolding end_process
end_process-KeepsShape status = record {
  same_id = λ p. refl;
  shape = λ n p v. record {
    handle_count = length-map _ p.handles ∙ v.handle_count;
    array = v.array;
    fits = v.fits;
    nonempty = v.nonempty;
    absolute = v.absolute;
  };
}
