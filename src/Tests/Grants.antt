-- ===== src/Tests/Grants.antt =====
-- Tests of granting, and of its order.
use lockify.Base.{◌≡◌, refl, true, false, not, ◌&&◌, [], ◌∷◌, arith, elem, update}
use lockify.Modes.{iv, cr, pr, ex, modes_compat}
use lockify.State.Events.{LkSts}
use lockify.State.{State}
use lockify.Queue.{queue_conflict, first_in_list}
use lockify.Grant.{grantable}
use lockify.Grant.Order.{grantable-is_next, is_next}
use lockify.Op.{do_request}
use lockify.Op.Answer.{IsFresh, Answer, do_request-Answer}
use lockify.Pending.{grant_pending_convert, grant_pending_locks, send_blocking_asts}
use lockify.Pending.Ends.{IsBusy}
use lockify.Pending.Finished.{grant_pending_convert-finished}
use lockify.Pending.Told.{Blocks, IsTold}
use lockify.Pending.Sent.{is_sent, send_blocking_asts-is_sent}
use lockify.Modes.{mode_lt}
use lockify.Base.{◌||◌, not}
use lockify.Refine.Relation.{Inv, Refines}
use lockify.Refine.Grant.{Fits, grantable-Fits}
use lockify.Refine.Pending.{grant_pending_locks-Refines}
use lockify.Tests.{start, idle_rsb, holding, asking, converting}

-- Locks 1 and 2 hold PR; lock 3 converts from CR to PR; lock 4 waits for PR.
abbrev busy : State
busy = record start {
  lkbs =
      update
        (update (update (update start.lkbs 1 (holding pr)) 2 (holding pr)) 3 (converting cr pr)) 4
        (record (asking pr) { status = LkSts.waiting });
  rsb = record idle_rsb { grantqueue = 1 ∷ 2 ∷ []; convertqueue = 3 ∷ []; waitqueue = 4 ∷ [] };
}

pub busy-Inv : Inv busy
unfolding elem
busy-Inv = record { listed = λ j h. ground arith; mild = λ j x. ground arith }

busy-IsBusy : IsBusy busy
unfolding elem
busy-IsBusy = record {
  holding = λ j h. ground arith;
  queued = λ j h. ground arith;
  distinct = (refl, tt);
}

grant_pending_convert-finished_example : (grant_pending_convert busy iv false 0).finished ≡ true
grant_pending_convert-finished_example = grant_pending_convert-finished busy iv false 0 busy-IsBusy

three-grantable : grantable busy 3 false false ≡ true
unfolding grantable queue_conflict modes_compat first_in_list
three-grantable = refl

grantable-Fits_example : Fits busy 3 pr
grantable-Fits_example = grantable-Fits busy 3 false false busy-Inv three-grantable

grant_pending_locks-Refines_example : Refines busy (grant_pending_locks busy).after
grant_pending_locks-Refines_example = grant_pending_locks-Refines busy busy-Inv

grantable-is_next_example : grantable busy 4 false false ≡ (
    is_next busy 4 false
    && not (queue_conflict busy.lkbs busy.rsb.grantqueue 4)
    && not (queue_conflict busy.lkbs busy.rsb.convertqueue 4))
grantable-is_next_example = grantable-is_next busy 4 false refl refl

-- Lock 5 asks for EX.
abbrev asked : State
asked = record busy { lkbs = update busy.lkbs 5 (asking ex) }

asked-IsFresh : IsFresh asked 5
asked-IsFresh = record { off = refl; holds_nothing = refl; asks = refl }

do_request-Answer_example : Answer asked (do_request asked 5).0 5 (do_request asked 5).1
do_request-Answer_example = do_request-Answer asked 5 asked-IsFresh

one-Blocks : Blocks asked.lkbs 5 1
unfolding modes_compat
one-Blocks = record { other = refl; bastfn = refl; excludes = refl }

one-listed : elem 1 asked.rsb.grantqueue ≡ true
unfolding elem
one-listed = refl

send_blocking_asts-is_sent_example :
    IsTold (send_blocking_asts asked 5).lkbs 5 1
    × ((not (mode_lt (asked.lkbs 1).highbast (asked.lkbs 5).rqmode)
          || is_sent (send_blocking_asts asked 5) 1 (asked.lkbs 5).rqmode)
        ≡ true)
send_blocking_asts-is_sent_example =
    send_blocking_asts-is_sent asked 5 1 (λ k. refl) one-Blocks one-listed
