-- ===== src/Prelude/Stateful.antt =====
-- Functions that work on a device: they take it and give back its new state with their result. `?`
-- leaves with the first error and the device as it is then.
use mathlib.Core.Path.{◌≡◌, refl, ap}
use nix_os.Prelude.Results.{Result, ok, err}
use native.Mathlib.Omega.{arith}

abbrev pub Stateful : Type 0 → Type 0 → Type 0 → Type 0
Stateful E D A = D → Result E A × D

module _ {E D A : Type 0} where
  abbrev pub pure : A → Stateful E D A
  pure a d = (ok a, d)

  -- a result that the device has no part in
  abbrev pub lift : Result E A → Stateful E D A
  lift r d = (r, d)

  -- a result that the device is only asked for
  abbrev pub ask : (D → Result E A) → Stateful E D A
  ask f d = (f d, d)

infixl 5 ◌>>=◌ ◌>>◌
abbrev pub ◌>>=◌ : {E D A B : Type 0} → Stateful E D A → (A → Stateful E D B) → Stateful E D B
(m >>= next) d = let (r, d') = m d in elim r [ err e ↦ (err e, d') | ok a ↦ next a d' ]

abbrev pub ◌>>◌ : {E D B : Type 0} → Stateful E D Unit → Stateful E D B → Stateful E D B
(m >> next) d = let (r, d') = m d in elim r [ err e ↦ (err e, d') | ok u ↦ next d' ]

-- A step that succeeds is followed by the rest.
pub after_ok :
    {E D A B : Type 0} (m : Stateful E D A) (next : A → Stateful E D B) (d d' : D) (a : A)
    → m d ≡ (ok a, d')
    → (m >>= next) d ≡ next a d'
after_ok {E = E} {D = D} {A = A} m next d d' a e =
    ap (λ (x : Result E A × D). elim x.0 [ err f ↦ (err f, x.1) | ok b ↦ next b x.1 ]) e

-- What succeeds has a first step that does.
pub ok_before :
    {E D A B : Type 0} (m : Stateful E D A) (next : A → Stateful E D B) (d : D) (b : B)
    → ((m >>= next) d).0 ≡ ok b
    → (a : A) × ((m d).0 ≡ ok a) × ((next a (m d).1).0 ≡ ok b)
ok_before {E = E} {D = D} {A = A} {B = B} m next d b = go (m d).0 (m d).1
  where
    go :
        (r : Result E A) (d' : D)
        → (elim r as (λ _. Result E B × D) [ err e ↦ (err e, d') | ok a ↦ next a d' ]).0 ≡ ok b
        → (a : A) × (r ≡ ok a) × ((next a d').0 ≡ ok b)
    go (err e) d' h = absurd (ground arith)
    go (ok a) d' h = (a, refl, h)

pub done_before :
    {E D B : Type 0} (m : Stateful E D Unit) (next : Stateful E D B) (d : D) (b : B)
    → ((m >> next) d).0 ≡ ok b
    → ((m d).0 ≡ ok tt) × ((next (m d).1).0 ≡ ok b)
done_before {E = E} {D = D} {B = B} m next d b = go (m d).0 (m d).1
  where
    go :
        (r : Result E Unit) (d' : D)
        → (elim r as (λ _. Result E B × D) [ err e ↦ (err e, d') | ok u ↦ next d' ]).0 ≡ ok b
        → (r ≡ ok tt) × ((next d').0 ≡ ok b)
    go (err e) d' h = absurd (ground arith)
    go (ok u) d' h = (refl, h)
