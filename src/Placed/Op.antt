-- ===== src/Placed/Op.antt =====
-- The queues under the operations of the master: fs/dlm/lock.c 2924-3065.
use lockify.Base.{ℕ, refl, true, false, not, ◌&&◌}
use lockify.Modes.{iv}
use lockify.State.Events.{LkSts, Errno, success, eagain, einprogress, edeadlk, eunlock, ecancel}
use lockify.State.{State, can_be_queued, force_blocking_asts}
use lockify.Queue.{del_lkb}
use lockify.Queue.Placed.{IsPlaced, add_lkb-IsPlaced, del_lkb-IsPlaced, deleted-is_off}
use lockify.Wire.{queue_cast}
use lockify.Grant.{Verdict, Reverted, can_be_granted, grantable, revert_lock}
use lockify.Pending.{grant_pending_convert}
use lockify.Op.{
  grant_now, do_request, do_request_effects, queue_convert, retry_demoted, do_convert,
  do_convert_effects, do_unlock, do_cancel,
}
use lockify.Op.Answer.{IsFresh, can_be_granted-IsFresh}
use lockify.Refine.Quiet.{queue_cast-Quiet}
use lockify.Placed.{
  Quiet-IsPlaced, choose-IsPlaced, remove_lock-IsPlaced, revert_lock-IsPlaced, grant_lock-IsPlaced,
  can_be_granted-IsPlaced,
}
use lockify.Placed.Pending.{
  grant_pending_convert-IsPlaced, grant_pending_locks-IsPlaced, send_blocking_asts-IsPlaced,
  send_blocking_asts_all-IsPlaced,
}

abbrev state_of : State × Errno → State
state_of r = r.0

cast-IsPlaced : (s : State) (i : ℕ) (e : Errno) → IsPlaced s → IsPlaced (queue_cast s i e)
cast-IsPlaced s i e v = Quiet-IsPlaced (queue_cast-Quiet s i e) v

grant_now-IsPlaced : (s : State) (i : ℕ) → IsPlaced s → IsPlaced (grant_now s i).0
grant_now-IsPlaced s i v = cast-IsPlaced _ i success (grant_lock-IsPlaced s i v)

-- A request on the master, of a lock on no queue.
pub do_request-IsPlaced :
    (s : State) (i : ℕ) → IsFresh s i → IsPlaced s → IsPlaced (do_request s i).0
unfolding do_request
do_request-IsPlaced s i f v =
    choose-IsPlaced state_of _ _ c.ok (λ _. grant_now-IsPlaced c.after i w)
      λ _.
        choose-IsPlaced state_of _ _ (can_be_queued (c.after.lkbs i))
          (λ _.
            add_lkb-IsPlaced c.after i LkSts.waiting
              (can_be_granted-IsFresh s i true false false f).off refl w)
          (λ _. cast-IsPlaced c.after i eagain w)
  where
    c : Verdict
    c = can_be_granted s i true false false

    w : IsPlaced c.after
    w = can_be_granted-IsPlaced s i true false false v

queue_convert-IsPlaced : (s : State) (i : ℕ) → IsPlaced s → IsPlaced (queue_convert s i).0
unfolding queue_convert
queue_convert-IsPlaced s i v =
    choose-IsPlaced state_of _ _ (can_be_queued (s.lkbs i))
      (λ _.
        add_lkb-IsPlaced (del_lkb s i) i LkSts.convert (deleted-is_off s i) refl
          (del_lkb-IsPlaced s i v))
      (λ _. cast-IsPlaced s i eagain v)

retry_demoted-IsPlaced : (s : State) (i : ℕ) → IsPlaced s → IsPlaced (retry_demoted s i).0
unfolding retry_demoted
retry_demoted-IsPlaced s i v =
    choose-IsPlaced state_of _ _ (grantable t i true false) (λ _. grant_now-IsPlaced t i w)
      (λ _. queue_convert-IsPlaced t i w)
  where
    t : State
    t = (grant_pending_convert s iv false 0).after

    w : IsPlaced t
    w = grant_pending_convert-IsPlaced s iv false 0 v

-- A conversion on the master, refused, granted, demoted or queued.
pub do_convert-IsPlaced : (s : State) (i : ℕ) → IsPlaced s → IsPlaced (do_convert s i).0
unfolding do_convert
do_convert-IsPlaced s i v =
    choose-IsPlaced state_of _ _ c.ok (λ _. grant_now-IsPlaced c.after i w)
      λ _.
        choose-IsPlaced state_of _ _ (c.deadlk && not (c.after.lkbs i).exflags.nodlckwt)
          (λ _. cast-IsPlaced _ i edeadlk (revert_lock-IsPlaced c.after i w))
          λ _.
            choose-IsPlaced state_of _ _ (c.after.lkbs i).sbflags.demoted
              (λ _. retry_demoted-IsPlaced c.after i w) (λ _. queue_convert-IsPlaced c.after i w)
  where
    c : Verdict
    c = can_be_granted s i true false true

    w : IsPlaced c.after
    w = can_be_granted-IsPlaced s i true false true v

pub do_unlock-IsPlaced : (s : State) (i : ℕ) → IsPlaced s → IsPlaced (do_unlock s i).0
unfolding do_unlock
do_unlock-IsPlaced s i v = cast-IsPlaced _ i eunlock (remove_lock-IsPlaced s i v)

pub do_cancel-IsPlaced : (s : State) (i : ℕ) → IsPlaced s → IsPlaced (do_cancel s i).0
unfolding do_cancel
do_cancel-IsPlaced s i v = answer (revert_lock s i).1
  where
    t : State
    t = (revert_lock s i).0

    w : IsPlaced t
    w = revert_lock-IsPlaced s i v

    answer :
        (r : Reverted)
        → IsPlaced
            (elim r as (λ _. State × Errno) [
              | Reverted.nothing ↦ (t, success)
              | _ ↦ (queue_cast t i ecancel, ecancel)
            ]).0
    answer Reverted.nothing = w
    answer Reverted.moved = cast-IsPlaced t i ecancel w
    answer Reverted.removed = cast-IsPlaced t i ecancel w

pub do_request_effects-IsPlaced :
    (s : State) (i : ℕ) (e : Errno) → IsPlaced s → IsPlaced (do_request_effects s i e)
unfolding do_request_effects
do_request_effects-IsPlaced s i eagain v =
    choose-IsPlaced (λ (s : State). s) _ _ (force_blocking_asts (s.lkbs i))
      (λ _. send_blocking_asts_all-IsPlaced s i v) (λ _. v)
do_request_effects-IsPlaced s i einprogress v = send_blocking_asts-IsPlaced s i v
do_request_effects-IsPlaced s i e v = v

pub do_convert_effects-IsPlaced :
    (s : State) (i : ℕ) (e : Errno) → IsPlaced s → IsPlaced (do_convert_effects s i e)
unfolding do_convert_effects
do_convert_effects-IsPlaced s i success v = grant_pending_locks-IsPlaced s v
do_convert_effects-IsPlaced s i eagain v =
    choose-IsPlaced (λ (s : State). s) _ _ (force_blocking_asts (s.lkbs i))
      (λ _. send_blocking_asts_all-IsPlaced s i v) (λ _. v)
do_convert_effects-IsPlaced s i einprogress v = send_blocking_asts-IsPlaced s i v
do_convert_effects-IsPlaced s i e v = v
