-- ===== src/Runtime/Vfs/Mounts.antt =====
-- Which mount a path is looked up in.
use nix_os.Prelude.{
  ℕ, suc, ◌+◌, ◌≤◌, ◌<◌, ◌≡◌, ◌++◌, ◌⊎◌, ap, ◌∙◌, take, drop, bytes_eq, bytes_eq→eq, bytes_eq_refl,
  get_or-drop, length-drop, take-append-drop, length-append, refl, sym, Bool, true, false, Option,
  none, some, List, [], ◌∷◌, arith, ltb, length, get_or, Bool-cases, inl, inr, flatten,
}
use nix_os.Runtime.Vfs.{
  VfsPath, root_path, Mount, as_bytes, path_has_prefix, better, longest, select_mount,
}

-- The path is in the tree of this one: the tree is that of the root, or the path is the tree's own path,
-- or goes on behind it with a slash.
pub IsUnder : List ℕ → List ℕ → Type 0
IsUnder path tree =
    (tree ≡ b'/' ∷ []) ⊎ ((path ≡ tree) ⊎ ((rest : List ℕ) × (path ≡ tree ++ b'/' ∷ rest)))

path_has_prefix_sound : (path tree : List ℕ) → path_has_prefix path tree ≡ true → IsUnder path tree
unfolding path_has_prefix IsUnder
path_has_prefix_sound path tree h = elim (Bool-cases (bytes_eq tree root_path)) [
  | inl root ↦ inl (bytes_eq→eq tree root_path root)
  | inr deep ↦ elim (Bool-cases (bytes_eq path tree)) [
    | inl whole ↦ inr (inl (bytes_eq→eq path tree whole))
    | inr longer ↦
        let (lt, front, slash) : (length tree < length path)
            × (bytes_eq (take (length tree) path) tree ≡ true)
            × (get_or path (length tree) 0 ≡ b'/') =
          ground (arith, deep, longer, h) in
        let same : take (length tree) path ≡ tree =
          bytes_eq→eq (take (length tree) path) tree front in
        let here : length tree + 0 ≡ length tree = omega arith in
        let next : get_or (drop (length tree) path) 0 0 ≡ b'/' =
          get_or-drop 0 (length tree) path 0 ∙ ap (λ i. get_or path i 0) here ∙ slash in
        inr (
          inr (
            drop 1 (drop (length tree) path),
            sym (take-append-drop (length tree) path)
                ∙ ap (λ xs. xs ++ drop (length tree) path) same
                ∙ ap (λ xs. tree ++ xs)
                    (first_of (drop (length tree) path)
                      (omega (arith, lt, length-drop (length tree) path)) next),
          ))
  ]
]
  where
    first_of : (xs : List ℕ) → 0 < length xs → get_or xs 0 0 ≡ b'/' → xs ≡ b'/' ∷ drop 1 xs
    first_of [] lt e = absurd (omega arith)
    first_of (x ∷ xs) lt e = ap (λ c. c ∷ xs) e

path_has_prefix_complete :
    (path tree : List ℕ) → IsUnder path tree → path_has_prefix path tree ≡ true
unfolding path_has_prefix IsUnder
path_has_prefix_complete path tree (inl root) =
    let e : bytes_eq tree root_path ≡ true = rw root (bytes_eq_refl root_path) in rw e refl
path_has_prefix_complete path tree (inr (inl whole)) =
    let e : bytes_eq path tree ≡ true = rw whole (bytes_eq_refl tree) in ground (arith, e)
path_has_prefix_complete path tree (inr (inr (rest, goes_on))) =
    let front : bytes_eq (take (length tree) path) tree ≡ true =
      rw (goes_on, front_of tree (b'/' ∷ rest)) (bytes_eq_refl tree) in
    let slash : get_or path (length tree) 0 ≡ b'/' = rw (goes_on, next_of tree rest) refl in
    let lt : length tree < length path =
      rw goes_on (omega (arith, length-append tree (b'/' ∷ rest))) in
    ground (arith, front, slash, lt)
  where
    front_of : (xs ys : List ℕ) → take (length xs) (xs ++ ys) ≡ xs
    front_of [] ys = refl
    front_of (x ∷ xs) ys = ap (λ zs. x ∷ zs) (front_of xs ys)

    next_of : (xs ys : List ℕ) → get_or (xs ++ b'/' ∷ ys) (length xs) 0 ≡ b'/'
    next_of [] ys = refl
    next_of (x ∷ xs) ys = next_of xs ys

module _ {F : Type 0} where
  -- Each mount of the list in whose tree `path` is has a path of at most `n` bytes.
  pub Bounded : List ℕ → ℕ → List (Mount F) → Type 0
  Bounded path n [] = Unit
  Bounded path n (m ∷ mounts) =
      (IsUnder path (as_bytes m.path) → length (as_bytes m.path) ≤ n) × Bounded path n mounts

  Bounded-weaken :
      (path : List ℕ) (n k : ℕ) (mounts : List (Mount F))
      → n ≤ k
      → Bounded path n mounts
      → Bounded path k mounts
  unfolding Bounded
  Bounded-weaken path n k [] le b = tt
  Bounded-weaken path n k (m ∷ mounts) le (b, bs) =
      (λ fits. let small = b fits in omega arith, Bounded-weaken path n k mounts le bs)

  -- The mount is in the list, `path` is in its tree, and no mount in whose tree it is has a longer path.
  pub record IsLongest (path : List ℕ) (mounts : List (Mount F)) (m : Mount F) : Type 0 where
    pub index : ℕ
    pub in_range : index < length mounts
    pub found : get_or mounts index m ≡ m
    pub fits : IsUnder path (as_bytes m.path)
    pub most : Bounded path (length (as_bytes m.path)) mounts

  longest-none :
      (path : List ℕ) (n : ℕ) (mounts : List (Mount F))
      → longest path mounts ≡ none
      → Bounded path n mounts
  unfolding longest better Bounded
  longest-none path n [] e = tt
  longest-none path n (m ∷ mounts) e =
      let (small, bounded) =
        go (path_has_prefix path (as_bytes m.path)) (longest path mounts)
          (longest-none path n mounts) e in
      (λ under. small (path_has_prefix_complete path (as_bytes m.path) under), bounded)
    where
      go :
          (fits : Bool) (rest : Option (Mount F))
          → (rest ≡ none → Bounded path n mounts)
          → better fits m rest ≡ none
          → (fits ≡ true → length (as_bytes m.path) ≤ n) × Bounded path n mounts
      go false rest more q = (λ yes. absurd (ground arith), more q)
      go true none more q = absurd (ground arith)
      go true (some best) more q =
          elim (Bool-cases (ltb (length (as_bytes best.path)) (length (as_bytes m.path)))) [
            | inl l ↦ absurd (ground (arith, l, q))
            | inr l ↦ absurd (ground (arith, l, q))
          ]

  IsLongest-behind :
      (path : List ℕ) (m first : Mount F) (mounts : List (Mount F))
      → (IsUnder path (as_bytes first.path)
          → length (as_bytes first.path) ≤ length (as_bytes m.path))
      → IsLongest path mounts m
      → IsLongest path (first ∷ mounts) m
  unfolding Bounded
  IsLongest-behind path m first mounts small l = record {
    index = suc l.index;
    in_range = omega (arith, l.in_range);
    found = l.found;
    fits = l.fits;
    most = (small, l.most);
  }

  IsLongest-here :
      (path : List ℕ) (m : Mount F) (mounts : List (Mount F))
      → IsUnder path (as_bytes m.path)
      → Bounded path (length (as_bytes m.path)) mounts
      → IsLongest path (m ∷ mounts) m
  unfolding Bounded
  IsLongest-here path m mounts fits bounded = record {
    index = 0;
    in_range = omega arith;
    found = refl;
    fits = fits;
    most = (λ _. omega arith, bounded);
  }

  longest-IsLongest :
      (path : List ℕ) (mounts : List (Mount F)) (m : Mount F)
      → longest path mounts ≡ some m
      → IsLongest path mounts m
  unfolding longest better
  longest-IsLongest path [] m e = absurd (ground arith)
  longest-IsLongest path (first ∷ mounts) m e =
      go (path_has_prefix path (as_bytes first.path)) (longest path mounts) refl refl
        (longest-IsLongest path mounts) e
    where
      go :
          (fits : Bool) (rest : Option (Mount F))
          → path_has_prefix path (as_bytes first.path) ≡ fits
          → longest path mounts ≡ rest
          → ((best : Mount F) → rest ≡ some best → IsLongest path mounts best)
          → better fits first rest ≡ some m
          → IsLongest path (first ∷ mounts) m
      go false rest f r more q =
          IsLongest-behind path m first mounts
            (λ under.
              absurd (ground (arith, f, path_has_prefix_complete path (as_bytes first.path) under)))
            (more m q)
      go true none f r more q =
          let same : first ≡ m = ground arith in
          rw (sym same) (
            IsLongest-here path first mounts (path_has_prefix_sound path (as_bytes first.path) f)
              (longest-none path (length (as_bytes first.path)) mounts r))
      go true (some best) f r more q =
          elim (Bool-cases (ltb (length (as_bytes best.path)) (length (as_bytes first.path)))) [
            | inl l ↦
                let same : first ≡ m = ground (arith, l, q) in
                let behind = more best refl in
                rw (sym same) (
                  IsLongest-here path first mounts
                    (path_has_prefix_sound path (as_bytes first.path) f)
                    (Bounded-weaken path (length (as_bytes best.path))
                      (length (as_bytes first.path)) mounts (ground (arith, l)) behind.most))
            | inr l ↦
                let same : best ≡ m = ground (arith, l, q) in
                rw same at (
                  IsLongest-behind path best first mounts (λ yes. ground (arith, l))
                    (more best refl))
          ]

  -- The mount that `select_mount` finds is one of the table; the path that is looked up is in its tree,
  -- the mount being at the root, or its path the one looked up, or that going on behind it with a slash;
  -- and no mount of the table in whose tree the path is has a longer path.
  pub select_mount-IsLongest :
      (path : VfsPath) (mounts : List (Option (Mount F))) (m : Mount F)
      → select_mount path mounts ≡ some m
      → IsLongest (as_bytes path) (flatten mounts) m
  unfolding select_mount
  select_mount-IsLongest path mounts m e = longest-IsLongest (as_bytes path) (flatten mounts) m e
