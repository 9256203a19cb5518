-- ===== src/Runtime/WaitQueue/Tests.antt =====
-- The wait queue on a concrete row of calls, and its theorem at it.
use nix_os.Prelude.{◌≡◌, refl, none, some, List, [], ◌∷◌, position}
use nix_os.Runtime.WaitQueue.{new, push, shift_down, pop}
use nix_os.Runtime.WaitQueue.Fifo.{
  Call, pushes, pops, Reply, accepted, refused, popped, run, expected, wait_queue-IsFifo,
}

abbrev script : List Call
script = pushes 3 ∷ pushes 5 ∷ pushes 7 ∷ pops ∷ pushes 9 ∷ pops ∷ pops ∷ pops ∷ []

abbrev replies : List Reply
replies =
    accepted
    ∷ accepted
    ∷ refused
    ∷ popped (some 3)
    ∷ accepted
    ∷ popped (some 5)
    ∷ popped (some 9)
    ∷ popped none
    ∷ []

run-script : run script (new 2) ≡ replies
unfolding run new push shift_down pop position
run-script = refl

wait_queue-IsFifo_example : run script (new 2) ≡ expected script [] 2
wait_queue-IsFifo_example = wait_queue-IsFifo 2 script
