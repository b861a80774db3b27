-- ===== src/Tests/Safety.antt =====
-- Tests of the refinement and of the safety of whole histories of calls.
use lockify.Base.{ℕ, ◌≡◌, refl, true, false, some, [], ◌∷◌, List, arith, elem, update}
use lockify.Modes.{iv, cr, pr, ex, modes_compat}
use lockify.State.Flags.{LkFlags, no_flags}
use lockify.State.{State}
use lockify.State.Events.{notify_msg, success}
use lockify.Spec.{IsCompatible}
use lockify.Args.{natural}
use lockify.Args.Notify.{convert_lock-iv}
use lockify.Api.{convert_lock}
use lockify.Api.Safety.{Call, locks, unlocks, run, run-IsSafe}
use lockify.Api.Calls.{IsSafe}
use lockify.Stage.{rsb_request_lock, rsb_convert_lock, rsb_unlock_lock, rsb_cancel_lock}
use lockify.Refine.Relation.{Inv, Refines, table}
use lockify.Refine.Stage.{
  rsb_request_lock-Refines, rsb_convert_lock-Refines, rsb_unlock_lock-Refines,
  rsb_cancel_lock-Refines,
}
use lockify.Tests.{start, idle_rsb, holding, asking, args}

pub start-IsSafe : IsSafe start
unfolding elem modes_compat
start-IsSafe = record {
  inv = record { listed = λ j h. refl; mild = λ j x. refl };
  compatible = λ i j ne. refl;
}

abbrev convert : LkFlags
convert = record no_flags { convert = true }

-- Lock 1 is granted PR, lock 2 is granted CR, lock 1 asks for EX, lock 2 is released.
abbrev history : List (ℕ × Call)
history =
    (1, locks (natural 3) (some (args pr no_flags).lksb) no_flags 5 true 0 true 0)
    ∷ (2, locks (natural 1) (some (args cr no_flags).lksb) no_flags 5 true 0 true 0)
    ∷ (1, locks (natural 5) (some (args ex convert).lksb) convert 0 true 0 true 0)
    ∷ (2, unlocks no_flags 0 false)
    ∷ []

run-IsSafe_example : IsSafe (run start history)
run-IsSafe_example = run-IsSafe start history start-IsSafe

-- Lock 1 holds PR and wants EX, lock 2 holds CR, and lock 3 is new and wants PR.
abbrev held : State
held = record start {
  lkbs =
      update (update (update start.lkbs 1 (record (holding pr) { rqmode = ex })) 2 (holding cr)) 3
        (asking pr);
  rsb = record idle_rsb { grantqueue = 1 ∷ 2 ∷ [] };
}

held-Inv : Inv held
unfolding elem
held-Inv = record { listed = λ j h. ground arith; mild = λ j x. ground arith }

held-IsCompatible : IsCompatible (table held)
unfolding modes_compat
held-IsCompatible = λ i j ne. ground arith

rsb_request_lock-Refines_example : Refines held (rsb_request_lock held 3).0
rsb_request_lock-Refines_example = rsb_request_lock-Refines held 3 held-Inv

rsb_convert_lock-Refines_example : Refines held (rsb_convert_lock held 1).0
rsb_convert_lock-Refines_example = rsb_convert_lock-Refines held 1 held-IsCompatible held-Inv

rsb_unlock_lock-Refines_example : Refines held (rsb_unlock_lock held 2).0
rsb_unlock_lock-Refines_example = rsb_unlock_lock-Refines held 2 held-Inv

rsb_cancel_lock-Refines_example : Refines held (rsb_cancel_lock held 1).0
rsb_cancel_lock-Refines_example = rsb_cancel_lock-Refines held 1 held-Inv

-- Lock 1 has told the directory node that this node is the master, and waits for the reply.
abbrev notifying : State
notifying = record held {
  lkbs = update held.lkbs 1 (record (holding pr) { wait_type = some notify_msg; wait_count = 1 });
}

convert_lock-iv_example :
    ((convert_lock notifying 1 (args ex convert)).1 ≡ success)
    × (((convert_lock notifying 1 (args ex convert)).0.lkbs 1).grmode ≡ iv)
convert_lock-iv_example =
    convert_lock-iv notifying 1 (args ex convert) refl refl refl refl refl refl refl
