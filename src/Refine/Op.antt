-- ===== src/Refine/Op.antt =====
-- The operations on the master implement the table: whatever is asked of whichever lock, granted
-- modes change by steps of `lockify.Spec` only.
use lockify.Base.{ℕ, true, false, not, ◌&&◌, arith}
use lockify.Modes.{iv}
use lockify.State.Events.{LkSts, Errno, success, eagain, einprogress, edeadlk, eunlock, ecancel}
use lockify.State.{State, can_be_queued, force_blocking_asts}
use lockify.Spec.{here}
use lockify.Queue.{add_lkb, del_lkb}
use lockify.Wire.{queue_cast}
use lockify.Grant.{Verdict, Reverted, can_be_granted, grantable, revert_lock}
use lockify.Pending.{grant_pending_convert}
use lockify.Op.{
  grant_now, do_request, do_request_effects, queue_convert, retry_demoted, do_convert,
  do_convert_effects, do_unlock, do_unlock_effects, do_cancel, do_cancel_effects,
}
use lockify.Refine.Frame.{
  Keeps, Keeps-trans, add_lkb-Keeps, del_lkb-Keeps, add_lkb-waiting-grantqueue,
  add_lkb-waiting-convertqueue, add_lkb-convert-is_listed, del_lkb-is_listed,
}
use lockify.Refine.Quiet.{queue_cast-Quiet}
use lockify.Refine.Relation.{Inv, Refines, Refines-trans, Refines-refl, Refines-if, Quiet-Refines}
use lockify.Refine.Grant.{Fits, grant_lock-Refines, grantable-Fits}
use lockify.Refine.Remove.{remove_lock-Refines, revert_lock-Refines}
use lockify.Refine.Judge.{Judged, can_be_granted-Judged}
use lockify.Refine.Pending.{
  choose-Refines, grant_pending_convert-Refines, grant_pending_locks-Refines,
  send_blocking_asts-Refines, send_blocking_asts_all-Refines,
}

cast-Refines : (s : State) (i : ℕ) (e : Errno) → Inv s → Refines s (queue_cast s i e)
cast-Refines s i e v = Quiet-Refines (queue_cast-Quiet s i e) v

grant_now-Refines :
    (s : State) (i : ℕ) → Fits s i (s.lkbs i).rqmode → Inv s → Refines s (grant_now s i).0
grant_now-Refines s i fits v =
    Refines-trans (grant_lock-Refines s i v fits) (cast-Refines _ i success)

wait-Refines : (s : State) (i : ℕ) → Inv s → Refines s (add_lkb s i LkSts.waiting)
wait-Refines s i v = record {
  steps = here k.gr;
  inv = record {
    listed = λ j h. ground (
      arith,
      add_lkb-waiting-grantqueue s i,
      add_lkb-waiting-convertqueue s i,
      k.gr j,
      v.listed j,
    );
    mild = λ j x. ground (arith, k.rq j, k.fl j, v.mild j);
  };
}
  where
    k : Keeps s.lkbs (add_lkb s i LkSts.waiting).lkbs
    k = add_lkb-Keeps s i LkSts.waiting

-- A lock moves to the convert queue with the mode that it has.
requeue-Refines : (s : State) (i : ℕ) → Inv s → Refines s (add_lkb (del_lkb s i) i LkSts.convert)
requeue-Refines s i v = record {
  steps = here k.gr;
  inv = record {
    listed = λ j h. ground (
      arith,
      add_lkb-convert-is_listed (del_lkb s i) i j,
      del_lkb-is_listed s i j,
      k.gr j,
      v.listed j,
    );
    mild = λ j x. ground (arith, k.rq j, k.fl j, v.mild j);
  };
}
  where
    k : Keeps s.lkbs (add_lkb (del_lkb s i) i LkSts.convert).lkbs
    k = Keeps-trans (del_lkb-Keeps s i) (add_lkb-Keeps (del_lkb s i) i LkSts.convert)

abbrev state_of : State × Errno → State
state_of r = r.0

pub do_request-Refines : (s : State) (i : ℕ) → Inv s → Refines s (do_request s i).0
unfolding do_request
do_request-Refines s i v =
    choose-Refines state_of _ _ w.ok
      (λ good. Refines-trans j.refines (grant_now-Refines w.after i (j.fits good)))
      λ _.
        choose-Refines state_of _ _ (can_be_queued (w.after.lkbs i))
          (λ _. Refines-trans j.refines (wait-Refines w.after i))
          (λ _. Refines-trans j.refines (cast-Refines w.after i eagain))
  where
    w : Verdict
    w = can_be_granted s i true false false

    j : Judged s i w.after w.ok
    j = can_be_granted-Judged s i true false false v

pub do_request_effects-Refines :
    (s : State) (i : ℕ) (e : Errno) → Inv s → Refines s (do_request_effects s i e)
unfolding do_request_effects
do_request_effects-Refines s i eagain v =
    Refines-if (force_blocking_asts (s.lkbs i)) (λ _. send_blocking_asts_all-Refines s i v)
      (λ _. Refines-refl s v)
do_request_effects-Refines s i einprogress v = send_blocking_asts-Refines s i v
do_request_effects-Refines s i e v = Refines-refl s v

queue_convert-Refines : (s : State) (i : ℕ) → Inv s → Refines s (queue_convert s i).0
unfolding queue_convert
queue_convert-Refines s i v =
    choose-Refines state_of _ _ (can_be_queued (s.lkbs i)) (λ _. requeue-Refines s i v)
      (λ _. cast-Refines s i eagain v)

retry_demoted-Refines : (s : State) (i : ℕ) → Inv s → Refines s (retry_demoted s i).0
unfolding retry_demoted
retry_demoted-Refines s i v = Refines-trans (grant_pending_convert-Refines s iv false 0 v) λ w.
    choose-Refines state_of _ _ (grantable t i true false)
      (λ good. grant_now-Refines t i (grantable-Fits t i true false w good) w)
      (λ _. queue_convert-Refines t i w)
  where
    t : State
    t = (grant_pending_convert s iv false 0).after

pub do_convert-Refines : (s : State) (i : ℕ) → Inv s → Refines s (do_convert s i).0
unfolding do_convert
do_convert-Refines s i v =
    choose-Refines state_of _ _ w.ok
      (λ good. Refines-trans j.refines (grant_now-Refines w.after i (j.fits good)))
      λ _.
        choose-Refines state_of _ _ (w.deadlk && not (w.after.lkbs i).exflags.nodlckwt)
          (λ _.
            Refines-trans j.refines
              λ u. Refines-trans (revert_lock-Refines w.after i u) (cast-Refines _ i edeadlk))
          λ _.
            choose-Refines state_of _ _ (w.after.lkbs i).sbflags.demoted
              (λ _. Refines-trans j.refines (retry_demoted-Refines w.after i))
              (λ _. Refines-trans j.refines (queue_convert-Refines w.after i))
  where
    w : Verdict
    w = can_be_granted s i true false true

    j : Judged s i w.after w.ok
    j = can_be_granted-Judged s i true false true v

pub do_convert_effects-Refines :
    (s : State) (i : ℕ) (e : Errno) → Inv s → Refines s (do_convert_effects s i e)
unfolding do_convert_effects
do_convert_effects-Refines s i success v = grant_pending_locks-Refines s v
do_convert_effects-Refines s i eagain v =
    Refines-if (force_blocking_asts (s.lkbs i)) (λ _. send_blocking_asts_all-Refines s i v)
      (λ _. Refines-refl s v)
do_convert_effects-Refines s i einprogress v = send_blocking_asts-Refines s i v
do_convert_effects-Refines s i e v = Refines-refl s v

pub do_unlock-Refines : (s : State) (i : ℕ) → Inv s → Refines s (do_unlock s i).0
unfolding do_unlock
do_unlock-Refines s i v = Refines-trans (remove_lock-Refines s i v) (cast-Refines _ i eunlock)

pub do_unlock_effects-Refines :
    (s : State) (i : ℕ) (e : Errno) → Inv s → Refines s (do_unlock_effects s i e)
unfolding do_unlock_effects
do_unlock_effects-Refines s i e v = grant_pending_locks-Refines s v

-- What `do_cancel` does after the lock is reverted.
canceled-Refines :
    (t : State) (i : ℕ) (r : Reverted)
    → Inv t
    → Refines t (
        state_of
          (elim r [ Reverted.nothing ↦ (t, success) | _ ↦ (queue_cast t i ecancel, ecancel) ]))
canceled-Refines t i Reverted.nothing v = Refines-refl t v
canceled-Refines t i r v = cast-Refines t i ecancel v

pub do_cancel-Refines : (s : State) (i : ℕ) → Inv s → Refines s (do_cancel s i).0
unfolding do_cancel
do_cancel-Refines s i v =
    Refines-trans (revert_lock-Refines s i v) (canceled-Refines _ i (revert_lock s i).1)

pub do_cancel_effects-Refines :
    (s : State) (i : ℕ) (e : Errno) → Inv s → Refines s (do_cancel_effects s i e)
unfolding do_cancel_effects
do_cancel_effects-Refines s i success v = Refines-refl s v
do_cancel_effects-Refines s i e v = grant_pending_locks-Refines s v
