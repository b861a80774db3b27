-- ===== src/Placed/Pending.antt =====
-- The queues while what waits is granted: fs/dlm/lock.c 2314-2497.
use lockify.Base.{ℕ, zero, suc, Bool, true, false, not, ◌&&◌, ◌||◌, ◌==◌, List, [], ◌∷◌}
use lockify.Modes.{Mode, iv, mode_eq, mode_lt}
use lockify.State.Events.{node, node_eq}
use lockify.State.{State, modify}
use lockify.State.Set.{set_highbast}
use lockify.Wire.{queue_bast}
use lockify.Grant.{Verdict, can_be_granted}
use lockify.Pending.{
  walk, Pass, bast_deadlock, convert_one, convert_pass, Granted, convert_loop, convert_fuel,
  grant_pending_convert, wait_one, grant_pending_wait, lock_requires_bast, bast_granted,
  grant_pending_locks, modes_require_bast, bast_one, send_bast_queue, send_blocking_asts,
  send_blocking_asts_all,
}
use lockify.Refine.Quiet.{Quiet-trans, queue_bast-Quiet, set_highbast-Quiet}
use lockify.Queue.Placed.{IsPlaced}
use lockify.Placed.{
  Quiet-IsPlaced, choose-IsPlaced, grant_lock_pending-IsPlaced, can_be_granted-IsPlaced,
}

-- A walk over a queue, if each of its steps does.
walk-IsPlaced :
    {S : Type 0} (p : S → State) (step : S → ℕ → S)
    → ((s : S) (i : ℕ) → IsPlaced (p s) → IsPlaced (p (step s i)))
    → (q : List ℕ) (s : S) → IsPlaced (p s)
    → IsPlaced (p (walk step s q))
unfolding walk
walk-IsPlaced p step one [] s v = v
walk-IsPlaced p step one (i ∷ q) s v = walk-IsPlaced p step one q (step s i) (one s i v)

basted-IsPlaced :
    (s : State) (i : ℕ) (m n : Mode)
    → IsPlaced s
    → IsPlaced (modify (queue_bast s i m) i (set_highbast n))
basted-IsPlaced s i m n v =
    Quiet-IsPlaced (Quiet-trans (queue_bast-Quiet s i m) (set_highbast-Quiet _ i n)) v

bast_deadlock-IsPlaced : (s : State) (i : ℕ) → IsPlaced s → IsPlaced (bast_deadlock s i)
unfolding bast_deadlock
bast_deadlock-IsPlaced s i v =
    choose-IsPlaced (λ (s : State). s) _ _
      ((s.lkbs i).exflags.nodlckwt && mode_lt (s.lkbs i).highbast (s.lkbs i).rqmode)
      (λ _. basted-IsPlaced s i _ _ v) (λ _. v)

abbrev after_pass : Pass → State
after_pass p = p.after

abbrev after : Granted → State
after g = g.after

convert_one-IsPlaced : (p : Pass) (i : ℕ) → IsPlaced p.after → IsPlaced (convert_one p i).after
unfolding convert_one
convert_one-IsPlaced p i v =
    choose-IsPlaced after_pass _ _ c.ok (λ _. grant_lock_pending-IsPlaced c.after i w)
      λ _.
        choose-IsPlaced after_pass _ _
          (not (p.after.lkbs i).sbflags.demoted && (c.after.lkbs i).sbflags.demoted) (λ _. w)
          λ _.
            choose-IsPlaced after_pass _ _ c.deadlk (λ _. bast_deadlock-IsPlaced c.after i w)
              (λ _. w)
  where
    c : Verdict
    c = can_be_granted p.after i false p.after.rsb.recover_grant true

    w : IsPlaced c.after
    w = can_be_granted-IsPlaced p.after i false p.after.rsb.recover_grant true v

convert_pass-IsPlaced :
    (s : State) (c : Bool) (n : ℕ) → IsPlaced s → IsPlaced (convert_pass s c n).after
unfolding convert_pass
convert_pass-IsPlaced s c n v =
    walk-IsPlaced after_pass convert_one convert_one-IsPlaced s.rsb.convertqueue _ v

convert_loop-IsPlaced :
    (fuel : ℕ) (quit : Bool) (s : State) (high : Mode) (c : Bool) (n : ℕ)
    → IsPlaced s
    → IsPlaced (convert_loop fuel quit s high c n).after
unfolding convert_loop
convert_loop-IsPlaced zero quit s high c n v = v
convert_loop-IsPlaced (suc fuel) quit s high c n v =
    choose-IsPlaced after _ _ (p.grant_restart || (p.demote_restart && not quit))
      (λ _. convert_loop-IsPlaced fuel _ p.after high p.cw_blocked p.count w) (λ _. w)
  where
    p : Pass
    p = convert_pass s c n

    w : IsPlaced p.after
    w = convert_pass-IsPlaced s c n v

pub grant_pending_convert-IsPlaced :
    (s : State) (high : Mode) (c : Bool) (n : ℕ)
    → IsPlaced s
    → IsPlaced (grant_pending_convert s high c n).after
unfolding grant_pending_convert
grant_pending_convert-IsPlaced s high c n v =
    convert_loop-IsPlaced (convert_fuel s) false s high c n v

wait_one-IsPlaced : (g : Granted) (i : ℕ) → IsPlaced g.after → IsPlaced (wait_one g i).after
unfolding wait_one
wait_one-IsPlaced g i v =
    choose-IsPlaced after _ _ (can_be_granted g.after i false false false).ok
      (λ _. grant_lock_pending-IsPlaced _ i w) (λ _. w)
  where
    w : IsPlaced (can_be_granted g.after i false false false).after
    w = can_be_granted-IsPlaced g.after i false false false v

grant_pending_wait-IsPlaced :
    (g : Granted) → IsPlaced g.after → IsPlaced (grant_pending_wait g).after
unfolding grant_pending_wait
grant_pending_wait-IsPlaced g v =
    walk-IsPlaced after wait_one wait_one-IsPlaced g.after.rsb.waitqueue g v

bast_granted-IsPlaced :
    (high : Mode) (c : Bool) (s : State) (i : ℕ) → IsPlaced s → IsPlaced (bast_granted high c s i)
unfolding bast_granted
bast_granted-IsPlaced high c s i v =
    choose-IsPlaced (λ (s : State). s) _ _
      ((s.lkbs i).bastfn && lock_requires_bast (s.lkbs i) high c)
      (λ _. basted-IsPlaced s i _ high v) (λ _. v)

-- All that waits is granted, and holders are told.
pub grant_pending_locks-IsPlaced : (s : State) → IsPlaced s → IsPlaced (grant_pending_locks s).after
unfolding grant_pending_locks
grant_pending_locks-IsPlaced s v =
    choose-IsPlaced after _ _ (not (node_eq s.rsb.res_nodeid (node 0))) (λ _. v)
      λ _.
        choose-IsPlaced after _ _ (mode_eq g.high iv) (λ _. w)
          (λ _.
            walk-IsPlaced (λ (s : State). s) (bast_granted g.high g.cw_blocked)
              (bast_granted-IsPlaced g.high g.cw_blocked) g.after.rsb.grantqueue g.after w)
  where
    g : Granted
    g = grant_pending_wait (grant_pending_convert s iv false 0)

    w : IsPlaced g.after
    w = grant_pending_wait-IsPlaced _ (grant_pending_convert-IsPlaced s iv false 0 v)

bast_one-IsPlaced : (i : ℕ) (s : State) (gr : ℕ) → IsPlaced s → IsPlaced (bast_one i s gr)
unfolding bast_one
bast_one-IsPlaced i s gr v =
    choose-IsPlaced (λ (s : State). s) _ _ (gr == i) (λ _. v)
      λ _.
        choose-IsPlaced (λ (s : State). s) _ _
          ((s.lkbs gr).bastfn && modes_require_bast (s.lkbs gr) (s.lkbs i))
          (λ _. basted-IsPlaced s gr _ _ v) (λ _. v)

send_bast_queue-IsPlaced :
    (s : State) (q : List ℕ) (i : ℕ) → IsPlaced s → IsPlaced (send_bast_queue s q i)
unfolding send_bast_queue
send_bast_queue-IsPlaced s q i v =
    walk-IsPlaced (λ (s : State). s) (bast_one i) (bast_one-IsPlaced i) q s v

pub send_blocking_asts-IsPlaced :
    (s : State) (i : ℕ) → IsPlaced s → IsPlaced (send_blocking_asts s i)
unfolding send_blocking_asts
send_blocking_asts-IsPlaced s i v = send_bast_queue-IsPlaced s _ i v

pub send_blocking_asts_all-IsPlaced :
    (s : State) (i : ℕ) → IsPlaced s → IsPlaced (send_blocking_asts_all s i)
unfolding send_blocking_asts_all
send_blocking_asts_all-IsPlaced s i v =
    send_bast_queue-IsPlaced _ _ i (send_bast_queue-IsPlaced s _ i v)
