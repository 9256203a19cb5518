-- ===== src/Kernel/Heap/Gaps.antt =====
-- How the neighbours of a segment that is freed are joined.
use nix_os.Prelude.{
  ℕ, zero, suc, ◌<◌, ◌≡◌, refl, Bool, true, false, ◌&&◌, List, [], ◌∷◌, arith, length, get_or,
}
use nix_os.Kernel.Heap.{Segment, empty_segment}
use nix_os.Kernel.Heap.Live.{replaced}
use nix_os.Kernel.Heap.Tiles.{joined}
use nix_os.Kernel.Heap.Merged.{IsMerged}

-- No two neighbours are free, but perhaps segment `i` and the next.
unfoldable pub IsMergedBefore : ℕ → Bool → List Segment → Type 0
IsMergedBefore i before [] = Unit
IsMergedBefore zero before (s ∷ segments) = ((before && s.free) ≡ false) × IsMerged false segments
IsMergedBefore (suc i) before (s ∷ segments) =
    ((before && s.free) ≡ false) × IsMergedBefore i s.free segments

-- No two neighbours are free, but perhaps segment `i` and the one before it or the next.
unfoldable pub IsMergedBut : ℕ → Bool → List Segment → Type 0
IsMergedBut i before [] = Unit
IsMergedBut zero before (s ∷ segments) = IsMerged false segments
IsMergedBut (suc i) before (s ∷ segments) =
    ((before && s.free) ≡ false) × IsMergedBut i s.free segments

pub replaced-IsMergedBut :
    (i : ℕ) (before : Bool) (s : Segment) (segments : List Segment)
    → i < length segments
    → (get_or segments i empty_segment).free ≡ false
    → IsMerged before segments
    → IsMergedBut i before (replaced i (s ∷ []) segments)
unfolding IsMergedBut IsMerged
replaced-IsMergedBut i before s [] lt used m = absurd (omega arith)
replaced-IsMergedBut zero before s (old ∷ segments) lt used (apart, m) = rw used at m
replaced-IsMergedBut (suc i) before s (first ∷ segments) lt used (apart, m) =
    (apart, replaced-IsMergedBut i first.free s segments (omega arith) used m)

pub zero-IsMergedBefore :
    (segments : List Segment) → IsMergedBut 0 false segments → IsMergedBefore 0 false segments
unfolding IsMergedBut IsMergedBefore
zero-IsMergedBefore [] m = tt
zero-IsMergedBefore (s ∷ segments) m = (refl, m)

-- The one before is in use.
pub used-IsMergedBefore :
    (i : ℕ) (before : Bool) (segments : List Segment)
    → suc i < length segments
    → (get_or segments i empty_segment).free ≡ false
    → IsMergedBut (suc i) before segments
    → IsMergedBefore (suc i) before segments
unfolding IsMergedBut IsMergedBefore
used-IsMergedBefore i before [] lt used m = tt
used-IsMergedBefore zero before (s ∷ []) lt used m = absurd (omega arith)
used-IsMergedBefore zero before (s ∷ next ∷ segments) lt used (apart, m) =
    (apart, (ground (arith, used), m))
used-IsMergedBefore (suc i) before (s ∷ segments) lt used (apart, m) =
    (apart, used-IsMergedBefore i s.free segments (omega arith) used m)

-- The one before is free and takes the segment up.
pub joined-IsMergedBefore :
    (i : ℕ) (before : Bool) (segments : List Segment)
    → suc i < length segments
    → IsMergedBut (suc i) before segments
    → IsMergedBefore i before (joined i segments)
unfolding IsMergedBut IsMergedBefore joined
joined-IsMergedBefore i before [] lt m = absurd (omega arith)
joined-IsMergedBefore zero before (s ∷ []) lt m = absurd (omega arith)
joined-IsMergedBefore zero before (s ∷ next ∷ segments) lt (apart, m) = (apart, m)
joined-IsMergedBefore (suc i) before (s ∷ segments) lt (apart, m) =
    (apart, joined-IsMergedBefore i s.free segments (omega arith) m)

-- The next is in use, or there is none.
pub used-IsMerged :
    (i : ℕ) (before : Bool) (segments : List Segment)
    → (suc i < length segments → (get_or segments (suc i) empty_segment).free ≡ false)
    → IsMergedBefore i before segments
    → IsMerged before segments
unfolding IsMergedBefore IsMerged
used-IsMerged i before [] used m = tt
used-IsMerged zero before (s ∷ []) used (apart, m) = (apart, tt)
used-IsMerged zero before (s ∷ next ∷ segments) used (apart, m) =
    (apart, (ground (arith, used (omega arith)), m.1))
used-IsMerged (suc i) before (s ∷ segments) used (apart, m) =
    (apart, used-IsMerged i s.free segments (λ lt. used (omega arith)) m)

-- The next is free and is taken up.
pub joined-IsMerged :
    (i : ℕ) (before : Bool) (segments : List Segment)
    → suc i < length segments
    → (get_or segments i empty_segment).free ≡ true
    → (get_or segments (suc i) empty_segment).free ≡ true
    → IsMergedBefore i before segments
    → IsMerged before (joined i segments)
unfolding IsMergedBefore IsMerged joined
joined-IsMerged i before [] lt f g m = absurd (omega arith)
joined-IsMerged zero before (s ∷ []) lt f g m = absurd (omega arith)
joined-IsMerged zero before (s ∷ next ∷ segments) lt f g (apart, m) = (apart, rw f (rw g at m.1))
joined-IsMerged (suc i) before (s ∷ segments) lt f g (apart, m) =
    (apart, joined-IsMerged i s.free segments (omega arith) f g m)
