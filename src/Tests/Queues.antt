-- ===== src/Tests/Queues.antt =====
-- Tests of the queues and of the value block.
use lockify.Base.{ℕ, ◌≡◌, ◌≢◌, refl, true, false, some, [], ◌∷◌, arith, elem, update}
use lockify.Modes.{Mode, cr, pr, ex, lvb_operation, LvbOp}
use lockify.State.Flags.{no_flags}
use lockify.State.{State}
use lockify.Queue.Placed.{IsPlaced}
use lockify.Lvb.{set_lvb_lock, set_lvb_unlock}
use lockify.Lvb.RoundTrip.{set_lvb_lock-set_lvb_unlock}
use lockify.Tests.{start, idle_rsb, holding, asking, converting}

start-IsPlaced : IsPlaced start
unfolding elem
start-IsPlaced = record {
  granted = λ j. refl;
  converting = λ j. refl;
  waiting = λ j. refl;
  once_granted = tt;
  once_converting = tt;
  once_waiting = tt;
}

-- Lock 1 converts, lock 2 is granted.
abbrev queued : State
queued = record start {
  lkbs = update (update start.lkbs 1 (converting cr pr)) 2 (holding pr);
  rsb = record idle_rsb { grantqueue = 2 ∷ []; convertqueue = 1 ∷ [] };
}

queued-IsPlaced : IsPlaced queued
unfolding elem
queued-IsPlaced = record {
  granted = λ j. ground arith;
  converting = λ j. ground arith;
  waiting = λ j. ground arith;
  once_granted = (refl, tt);
  once_converting = (refl, tt);
  once_waiting = tt;
}

-- Lock 1 holds EX and has written the block 7, 8; lock 2 asks for PR.
abbrev blocks : State
blocks = record start {
  lkbs =
      update
        (update start.lkbs 1 (record (holding ex) { exflags = record no_flags { valblk = true } }))
        2
        (record (asking pr) {
          exflags = record no_flags { valblk = true };
          lvbptr = some (0 ∷ 0 ∷ []);
        });
}

nl_pr-lvb_operation : lvb_operation Mode.iv pr ≡ LvbOp.returned
unfolding lvb_operation
nl_pr-lvb_operation = refl

one_two_differ : ◌≢◌ {A = ℕ} 1 2
one_two_differ = ground arith

set_lvb_lock-set_lvb_unlock_example :
    let t = set_lvb_lock (set_lvb_unlock blocks 1) 2 in
    ((t.lkbs 2).lvbptr ≡ some (7 ∷ 8 ∷ []))
    × ((t.lkbs 2).lvbseq ≡ t.rsb.res_lvbseq)
    × (t.rsb.valnotvalid ≡ false)
set_lvb_lock-set_lvb_unlock_example =
    set_lvb_lock-set_lvb_unlock blocks 1 2 (7 ∷ 8 ∷ []) (0 ∷ 0 ∷ []) (0 ∷ 0 ∷ []) one_two_differ
      refl refl refl refl refl refl nl_pr-lvb_operation refl refl refl
