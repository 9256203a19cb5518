-- ===== src/Runtime/Vfs/Paths.antt =====
-- The paths that `normalize` makes.
use nix_os.Prelude.{
  ℕ, ◌+◌, ◌-◌, ◌≤◌, ◌<◌, ◌≡◌, refl, ◌∙◌, Bool, true, false, not, ◌||◌, List, [], ◌∷◌, arith, ltb,
  ◌==◌, if◌then◌else◌, length, get_or, set, drop, length-set, get_or-set, replicate, Result, ok,
  err, refuse_if, ◌>>=◌, ◌>>◌, Result-cases, Bool-cases, inl, inr, bytes_eq, contains,
}
use nix_os.Abi.{Error}
use nix_os.Runtime.Vfs.{
  VfsPath, Output, push_byte, push_bytes, leave, enter, separated, put_name, append_component,
  append_components, append_directory, split, is_root, is_absolute, unwrap_or, strip_slash,
  normalize,
}

-- An absolute path: its array has 256 bytes, of which at least one and at most all are in use, the first
-- being a slash.
pub record IsPath (p : VfsPath) : Type 0 where
  pub array : length p.bytes ≡ 256
  pub some_bytes : 0 < p.len
  pub fits : p.len ≤ 256
  pub absolute : get_or p.bytes 0 0 ≡ b'/'

-- Every start that a `..` can go back to is within the path.
pub record IsOutput (o : Output) : Type 0 where
  pub path : IsPath o.path
  pub room : length o.starts ≡ 64
  pub bound : o.count ≤ 64
  pub starts : (i : ℕ) → i < o.count → (0 < get_or o.starts i 0) × (get_or o.starts i 0 ≤ 256)

push_byte-IsPath : (byte : ℕ) (p p' : VfsPath) → IsPath p → push_byte byte p ≡ ok p' → IsPath p'
unfolding push_byte
push_byte-IsPath byte p p' v e = elim (Bool-cases (p.len == 256)) [
  | inl full ↦ absurd (ground (arith, full))
  | inr room ↦
      let made : IsPath (record { bytes = set p.bytes p.len byte; len = p.len + 1 }) = record {
        array = length-set p.bytes p.len byte ∙ v.array;
        some_bytes = omega arith;
        fits = ground (arith, room, v.fits);
        absolute = ground (arith, v.absolute, v.some_bytes, get_or-set p.bytes p.len 0 byte 0);
      } in
      let same : record { bytes = set p.bytes p.len byte; len = p.len + 1 } ≡ p' =
        ground (arith, room) in
      rw same at made
]

push_bytes-IsPath :
    (bytes : List ℕ) (p p' : VfsPath) → IsPath p → push_bytes bytes p ≡ ok p' → IsPath p'
unfolding push_bytes
push_bytes-IsPath [] p p' v e = let same : p ≡ p' = ground arith in rw same at v
push_bytes-IsPath (byte ∷ bytes) p p' v e = elim (Result-cases (push_byte byte p)) [
  | inr (x, f) ↦ absurd (ground arith)
  | inl (q, f) ↦
      push_bytes-IsPath bytes q p' (push_byte-IsPath byte p q v f) (rw (push_bytes, f) at e)
]

leave-IsOutput : (o o' : Output) → IsOutput o → leave o ≡ ok o' → IsOutput o'
unfolding leave
leave-IsOutput o o' v e = elim (Bool-cases (o.count == 0)) [
  | inl none_left ↦ let same : o ≡ o' = ground (arith, none_left) in rw same at v
  | inr some_left ↦
      let last : o.count - 1 < o.count = ground (arith, some_left) in
      let (pos, small) = v.starts (o.count - 1) last in
      let start : (get_or o.starts (o.count - 1) 0 == 0) ≡ false = ground (arith, pos) in
      let made : IsOutput (record o {
        path = record o.path { len = get_or o.starts (o.count - 1) 0 };
        count = o.count - 1;
      }) =
        record {
          path = record {
            array = v.path.array;
            some_bytes = pos;
            fits = small;
            absolute = v.path.absolute;
          };
          room = v.room;
          bound = omega (arith, v.bound);
          starts = λ i lt. v.starts i (omega arith);
        } in
      let same : record o {
        path = record o.path { len = get_or o.starts (o.count - 1) 0 };
        count = o.count - 1;
      }
          ≡ o' =
        ground (arith, some_left, start) in
      rw same at made
]

put_name-IsOutput :
    (component : List ℕ) (o o' : Output) (p : VfsPath)
    → IsOutput o
    → o.count < 64
    → IsPath p
    → put_name component o p ≡ ok o'
    → IsOutput o'
unfolding put_name
put_name-IsOutput component o o' p v room vp e = elim (Result-cases (push_bytes component p)) [
  | inr (x, f) ↦ absurd (ground arith)
  | inl (q, f) ↦
      let made : IsOutput
          (record { path = q; starts = set o.starts o.count o.path.len; count = o.count + 1 }) =
        record {
          path = push_bytes-IsPath component p q vp f;
          room = length-set o.starts o.count o.path.len ∙ v.room;
          bound = omega (arith, room);
          starts = λ i lt. ground (
            arith,
            lt,
            room,
            v.room,
            v.path.some_bytes,
            v.path.fits,
            v.starts i,
            get_or-set o.starts o.count i o.path.len 0,
          );
        } in
      let same : record { path = q; starts = set o.starts o.count o.path.len; count = o.count + 1 }
          ≡ o' =
        ground arith in
      rw same at made
]

separated-IsPath : (p p' : VfsPath) → IsPath p → separated p ≡ ok p' → IsPath p'
unfolding separated
separated-IsPath p p' v e = elim (Bool-cases (is_root p)) [
  | inl root ↦ let same : p ≡ p' = ground (arith, root) in rw same at v
  | inr other ↦ push_byte-IsPath b'/' p p' v (rw (separated, other) at e)
]

enter-IsOutput :
    (component : List ℕ) (o o' : Output) → IsOutput o → enter component o ≡ ok o' → IsOutput o'
unfolding enter
enter-IsOutput component o o' v =
    go (ltb 64 (length component) || contains 0 component) (o.count == length o.starts)
      (separated o.path) refl refl
  where
    go :
        (bad full : Bool) (path : Result Error VfsPath)
        → (o.count == length o.starts) ≡ full
        → separated o.path ≡ path
        → (refuse_if bad Error.name_too_long
            >> (refuse_if full Error.name_too_long >> (path >>= put_name component o)))
          ≡ ok o'
        → IsOutput o'
    go true full path f g e = absurd (ground arith)
    go false true path f g e = absurd (ground arith)
    go false false (err x) f g e = absurd (ground arith)
    go false false (ok p) f g e =
        put_name-IsOutput component o o' p v (ground (arith, f, v.room, v.bound))
          (separated-IsPath o.path p v.path g) e

append_component-IsOutput :
    (component : List ℕ) (o o' : Output)
    → IsOutput o
    → append_component component o ≡ ok o'
    → IsOutput o'
unfolding append_component
append_component-IsOutput component o o' v =
    go (length component == 0 || bytes_eq component (b'.' ∷ []))
      (bytes_eq component (b'.' ∷ b'.' ∷ []))
  where
    go :
        (skips leaves : Bool)
        → (if skips then ok o else if leaves then leave o else enter component o) ≡ ok o'
        → IsOutput o'
    go true leaves e = let same : o ≡ o' = ground arith in rw same at v
    go false true e = leave-IsOutput o o' v e
    go false false e = enter-IsOutput component o o' v e

append_components-IsOutput :
    (components : List (List ℕ)) (o o' : Output)
    → IsOutput o
    → append_components components o ≡ ok o'
    → IsOutput o'
unfolding append_components
append_components-IsOutput [] o o' v e = let same : o ≡ o' = ground arith in rw same at v
append_components-IsOutput (component ∷ components) o o' v e =
    elim (Result-cases (append_component component o)) [
      | inr (x, f) ↦ absurd (ground arith)
      | inl (next, f) ↦
          append_components-IsOutput components next o'
            (append_component-IsOutput component o next v f) (rw (append_components, f) at e)
    ]

append_directory-IsOutput :
    (path current_directory : List ℕ) (o o' : Output)
    → IsOutput o
    → append_directory path current_directory o ≡ ok o'
    → IsOutput o'
unfolding append_directory
append_directory-IsOutput path current_directory o o' v =
    go (is_absolute path) (not (is_absolute current_directory))
  where
    go :
        (absolute bad : Bool)
        → (if absolute
            then ok o
            else if bad
            then err Error.invalid_argument
            else append_components (split (drop 1 current_directory)) o)
          ≡ ok o'
        → IsOutput o'
    go true bad e = let same : o ≡ o' = ground arith in rw same at v
    go false true e = absurd (ground arith)
    go false false e = append_components-IsOutput (split (drop 1 current_directory)) o o' v e

abbrev first_path : VfsPath
first_path = record { bytes = set (replicate 256 0) 0 b'/'; len = 1 }

abbrev first_output : Output
first_output = record { path = first_path; starts = replicate 64 0; count = 0 }

first-IsOutput : IsOutput first_output
first-IsOutput = record {
  path = record { array = refl; some_bytes = omega arith; fits = omega arith; absolute = refl };
  room = refl;
  bound = omega arith;
  starts = λ i lt. absurd (omega arith);
}

-- Whatever the path and the current directory, a path that `normalize` returns is absolute: its first byte
-- is a slash, its array has 256 bytes, and its length is from 1 to 256.
pub normalize-IsPath :
    (path current_directory : List ℕ) (p : VfsPath)
    → normalize path current_directory ≡ ok p
    → IsPath p
unfolding normalize push_byte
normalize-IsPath path current_directory p =
    go (append_directory path current_directory first_output) refl
  where
    parts : List (List ℕ)
    parts = split (unwrap_or path (strip_slash path))

    last :
        (o : Output) (r : Result Error Output)
        → IsOutput o
        → append_components parts o ≡ r
        → (r >>= λ o. ok o.path) ≡ ok p
        → IsPath p
    last o (err x) v f e = absurd (ground arith)
    last o (ok o') v f e =
        let made = append_components-IsOutput parts o o' v f in
        let same : o'.path ≡ p = ground arith in rw same at made.path

    go :
        (r : Result Error Output)
        → append_directory path current_directory first_output ≡ r
        → (r >>= λ o. append_components parts o >>= λ o. ok o.path) ≡ ok p
        → IsPath p
    go (err x) f e = absurd (ground arith)
    go (ok o) f e =
        last o (append_components parts o)
          (append_directory-IsOutput path current_directory first_output o first-IsOutput f) refl e
