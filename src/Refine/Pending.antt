-- ===== src/Refine/Pending.antt =====
-- Granting what waits, and blocking callbacks, implement the table.
use lockify.Base.{
  ℕ, zero, suc, ◌≡◌, refl, Bool, true, false, not, ◌&&◌, ◌||◌, ◌==◌, if◌then◌else◌, List,
}
use lockify.Modes.{Mode, iv, mode_eq, mode_lt}
use lockify.State.Events.{success, node_eq, node}
use lockify.State.{State, modify}
use lockify.State.Set.{set_highbast}
use lockify.Wire.{queue_bast}
use lockify.Grant.{Verdict, can_be_granted, grant_lock, grant_lock_pending}
use lockify.Pending.{
  Pass, Granted, convert_one, convert_pass, convert_loop, convert_fuel, grant_pending_convert,
  wait_one, grant_pending_wait, bast_granted, bast_one, lock_requires_bast, grant_pending_locks,
  modes_require_bast, send_bast_queue, send_blocking_asts, send_blocking_asts_all, bast_deadlock,
}
use lockify.Refine.Quiet.{
  Quiet-trans, send_grant-Quiet, queue_cast-Quiet, queue_bast-Quiet, set_highbast-Quiet,
}
use lockify.Refine.Relation.{
  Inv, Refines, Refines-trans, Refines-refl, Refines-if, Quiet-Refines, walk-Refines,
}
use lockify.Refine.Grant.{Fits, grant_lock-Refines}
use lockify.Refine.Judge.{Judged, can_be_granted-Judged}

pub grant_lock_pending-Refines :
    (s : State) (i : ℕ) → Inv s → Fits s i (s.lkbs i).rqmode → Refines s (grant_lock_pending s i)
unfolding grant_lock_pending
grant_lock_pending-Refines s i v fits = Refines-trans (grant_lock-Refines s i v fits) λ w.
    Refines-if ((grant_lock s i).lkbs i).mstcpy (λ _. Quiet-Refines (send_grant-Quiet _ i) w)
      (λ _. Quiet-Refines (queue_cast-Quiet _ i success) w)

-- A blocking callback, remembered as the highest one sent.
basted-Refines :
    (s : State) (i : ℕ) (m high : Mode)
    → Inv s
    → Refines s (modify (queue_bast s i m) i (set_highbast high))
basted-Refines s i m high v =
    Quiet-Refines (Quiet-trans (queue_bast-Quiet s i m) (set_highbast-Quiet _ i high)) v

bast_deadlock-Refines : (s : State) (i : ℕ) → Inv s → Refines s (bast_deadlock s i)
unfolding bast_deadlock
bast_deadlock-Refines s i v =
    Refines-if ((s.lkbs i).exflags.nodlckwt && mode_lt (s.lkbs i).highbast (s.lkbs i).rqmode)
      (λ _. basted-Refines s i _ _ v) (λ _. Refines-refl s v)

-- The same for a test between two values that carry a state.
pub choose-Refines :
    {S : Type 0} (p : S → State) {s : State} (x y : S) (b : Bool)
    → (b ≡ true → Refines s (p x))
    → (b ≡ false → Refines s (p y))
    → Refines s (p (if b then x else y))
choose-Refines p x y true f g = f refl
choose-Refines p x y false f g = g refl

convert_one-Refines : (p : Pass) (i : ℕ) → Inv p.after → Refines p.after (convert_one p i).after
unfolding convert_one
convert_one-Refines p i v =
    choose-Refines (λ (p : Pass). p.after) _ _ w.ok
      (λ good. Refines-trans j.refines (λ u. grant_lock_pending-Refines w.after i u (j.fits good)))
      λ _.
        choose-Refines (λ (p : Pass). p.after) _ _
          (not (p.after.lkbs i).sbflags.demoted && (w.after.lkbs i).sbflags.demoted)
          (λ _. j.refines)
          λ _.
            choose-Refines (λ (p : Pass). p.after) _ _ w.deadlk
              (λ _. Refines-trans j.refines (bast_deadlock-Refines w.after i)) (λ _. j.refines)
  where
    w : Verdict
    w = can_be_granted p.after i false p.after.rsb.recover_grant true

    j : Judged p.after i w.after w.ok
    j = can_be_granted-Judged p.after i false p.after.rsb.recover_grant true v

convert_pass-Refines : (s : State) (c : Bool) (n : ℕ) → Inv s → Refines s (convert_pass s c n).after
unfolding convert_pass
convert_pass-Refines s c n v =
    walk-Refines (λ (p : Pass). p.after) convert_one convert_one-Refines s.rsb.convertqueue _ v

convert_loop-Refines :
    (fuel : ℕ) (quit : Bool) (s : State) (high : Mode) (c : Bool) (n : ℕ)
    → Inv s
    → Refines s (convert_loop fuel quit s high c n).after
unfolding convert_loop
convert_loop-Refines zero quit s high c n v = Refines-refl s v
convert_loop-Refines (suc fuel) quit s high c n v =
    choose-Refines (λ (g : Granted). g.after) _ _
      (p.grant_restart || (p.demote_restart && not quit))
      (λ _. Refines-trans (convert_pass-Refines s c n v) (
        convert_loop-Refines fuel (if p.grant_restart then quit else true) p.after high p.cw_blocked
          p.count))
      (λ _. convert_pass-Refines s c n v)
  where
    p : Pass
    p = convert_pass s c n

pub grant_pending_convert-Refines :
    (s : State) (high : Mode) (c : Bool) (n : ℕ)
    → Inv s
    → Refines s (grant_pending_convert s high c n).after
unfolding grant_pending_convert
grant_pending_convert-Refines s high c n v =
    convert_loop-Refines (convert_fuel s) false s high c n v

wait_one-Refines : (g : Granted) (i : ℕ) → Inv g.after → Refines g.after (wait_one g i).after
unfolding wait_one
wait_one-Refines g i v =
    choose-Refines (λ (g : Granted). g.after) _ _ w.ok
      (λ good. Refines-trans j.refines (λ u. grant_lock_pending-Refines w.after i u (j.fits good)))
      (λ _. j.refines)
  where
    w : Verdict
    w = can_be_granted g.after i false false false

    j : Judged g.after i w.after w.ok
    j = can_be_granted-Judged g.after i false false false v

pub grant_pending_wait-Refines :
    (g : Granted) → Inv g.after → Refines g.after (grant_pending_wait g).after
unfolding grant_pending_wait
grant_pending_wait-Refines g v =
    walk-Refines (λ (g : Granted). g.after) wait_one wait_one-Refines g.after.rsb.waitqueue g v

bast_granted-Refines :
    (high : Mode) (c : Bool) (s : State) (i : ℕ) → Inv s → Refines s (bast_granted high c s i)
unfolding bast_granted
bast_granted-Refines high c s i v =
    Refines-if ((s.lkbs i).bastfn && lock_requires_bast (s.lkbs i) high c)
      (λ _. basted-Refines s i _ high v) (λ _. Refines-refl s v)

-- From a state with the invariant, grant_pending_locks, over the convert queue, the wait queue
-- and the blocking callbacks, only does steps of the table and keeps the invariant.
pub grant_pending_locks-Refines : (s : State) → Inv s → Refines s (grant_pending_locks s).after
unfolding grant_pending_locks
grant_pending_locks-Refines s v =
    choose-Refines (λ (g : Granted). g.after) _ _ (not (node_eq s.rsb.res_nodeid (node 0)))
      (λ _. Refines-refl s v)
      λ _.
        choose-Refines (λ (g : Granted). g.after) _ _ (mode_eq g.high iv) (λ _. r)
          λ _. Refines-trans r (
            walk-Refines (λ s. s) (bast_granted g.high g.cw_blocked)
              (bast_granted-Refines g.high g.cw_blocked) g.after.rsb.grantqueue g.after)
  where
    h : Granted
    h = grant_pending_convert s iv false 0

    g : Granted
    g = grant_pending_wait h

    r : Refines s g.after
    r = Refines-trans (grant_pending_convert-Refines s iv false 0 v) (grant_pending_wait-Refines h)

bast_one-Refines : (i : ℕ) (s : State) (gr : ℕ) → Inv s → Refines s (bast_one i s gr)
unfolding bast_one
bast_one-Refines i s gr v =
    Refines-if (gr == i) (λ _. Refines-refl s v)
      λ _.
        Refines-if ((s.lkbs gr).bastfn && modes_require_bast (s.lkbs gr) (s.lkbs i))
          (λ _. basted-Refines s gr _ _ v) (λ _. Refines-refl s v)

send_bast_queue-Refines :
    (s : State) (q : List ℕ) (i : ℕ) → Inv s → Refines s (send_bast_queue s q i)
unfolding send_bast_queue
send_bast_queue-Refines s q i v = walk-Refines (λ s. s) (bast_one i) (bast_one-Refines i) q s v

pub send_blocking_asts-Refines : (s : State) (i : ℕ) → Inv s → Refines s (send_blocking_asts s i)
unfolding send_blocking_asts
send_blocking_asts-Refines s i v = send_bast_queue-Refines s _ i v

pub send_blocking_asts_all-Refines :
    (s : State) (i : ℕ) → Inv s → Refines s (send_blocking_asts_all s i)
unfolding send_blocking_asts_all
send_blocking_asts_all-Refines s i v =
    Refines-trans (send_bast_queue-Refines s _ i v) (send_bast_queue-Refines _ _ i)
