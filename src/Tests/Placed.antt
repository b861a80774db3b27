-- ===== src/Tests/Placed.antt =====
-- Tests that the queues stay in order.
use lockify.Base.{refl, [], ◌∷◌, arith, elem, update}
use lockify.Modes.{cr, pr, ex}
use lockify.State.{State}
use lockify.State.Events.{LkSts}
use lockify.Queue.Placed.{IsPlaced}
use lockify.Op.Answer.{IsFresh}
use lockify.Stage.{rsb_request_lock, rsb_convert_lock, rsb_unlock_lock, rsb_cancel_lock}
use lockify.Placed.Stage.{
  rsb_request_lock-IsPlaced, rsb_convert_lock-IsPlaced, rsb_unlock_lock-IsPlaced,
  rsb_cancel_lock-IsPlaced,
}
use lockify.Tests.{start, idle_rsb, holding, asking, converting}

-- Locks 1 and 2 hold PR, and lock 1 wants EX; lock 3 converts from CR to EX; lock 4 waits for PR; lock 5 asks for EX.
abbrev queued : State
queued = record start {
  lkbs =
      update
        (update
          (update
            (update (update start.lkbs 1 (record (holding pr) { rqmode = ex })) 2 (holding pr)) 3
            (converting cr ex))
          4 (record (asking pr) { status = LkSts.waiting }))
        5 (asking ex);
  rsb = record idle_rsb { grantqueue = 1 ∷ 2 ∷ []; convertqueue = 3 ∷ []; waitqueue = 4 ∷ [] };
}

queued-IsPlaced : IsPlaced queued
unfolding elem
queued-IsPlaced = record {
  granted = λ j. ground arith;
  converting = λ j. ground arith;
  waiting = λ j. ground arith;
  once_granted = (refl, (refl, tt));
  once_converting = (refl, tt);
  once_waiting = (refl, tt);
}

queued-IsFresh : IsFresh queued 5
queued-IsFresh = record { off = refl; holds_nothing = refl; asks = refl }

rsb_request_lock-IsPlaced_example : IsPlaced (rsb_request_lock queued 5).0
rsb_request_lock-IsPlaced_example =
    rsb_request_lock-IsPlaced queued 5 queued-IsFresh queued-IsPlaced

rsb_convert_lock-IsPlaced_example : IsPlaced (rsb_convert_lock queued 1).0
rsb_convert_lock-IsPlaced_example = rsb_convert_lock-IsPlaced queued 1 queued-IsPlaced

rsb_unlock_lock-IsPlaced_example : IsPlaced (rsb_unlock_lock queued 2).0
rsb_unlock_lock-IsPlaced_example = rsb_unlock_lock-IsPlaced queued 2 queued-IsPlaced

rsb_cancel_lock-IsPlaced_example : IsPlaced (rsb_cancel_lock queued 3).0
rsb_cancel_lock-IsPlaced_example = rsb_cancel_lock-IsPlaced queued 3 queued-IsPlaced
