-- ===== src/Glock/Safety.antt =====
-- Holders, callbacks and answers of the lock manager, in any order: fs/gfs2/glock.c 1052-1095,
-- 1475-1642 and 1847-1926.
use lockify.Base.{ℕ, ◌≡◌, refl, true, arith}
use lockify.Glock.{LmState, Holder, Glock, new_glock, World}
use lockify.Glock.Queue.{glock_nq, glock_dq, glock_cb, glock_complete, glock_work}
use lockify.Glock.Good.{exact_states, in_order}
use lockify.Glock.Steps.{is_asked, is_safe}
use lockify.Glock.Events.{
  is_new, glock_nq-is_safe, glock_dq-is_safe, glock_cb-is_safe, glock_complete-is_safe,
  glock_work-is_safe,
}
use lockify.Glock.Share.{all_share, all_covered, in_order-all_share, in_order-all_covered}

-- What happens to a glock: a holder comes or goes, another node wants the glock, the lock manager
-- answers what it was asked, the work runs.
pub data Step (gl : Glock) : Glock → Type 0 where
  nq : (gh : Holder) (w : World) → is_new gh ≡ true → Step gl (glock_nq gl gh w).0
  dq : (gh : Holder) (w : World) → Step gl (glock_dq gl gh w)
  cb : (st : LmState) (w : World) → Step gl (glock_cb gl st w)
  complete : (n : ℕ) (w : World) → is_asked gl.asked ≡ true → Step gl (glock_complete gl n w)
  work : (v w : World) → Step gl (glock_work gl v w)

pub data Reach (gl : Glock) : Glock → Type 0 where
  start : Reach gl gl
  later : {x y : Glock} → Reach gl x → Step x y → Reach gl y

new_glock-is_safe : (now hold : ℕ) → is_safe (new_glock now hold) ≡ true
unfolding exact_states in_order
new_glock-is_safe now hold = refl

Step-is_safe : {x y : Glock} → Step x y → is_safe x ≡ true → is_safe y ≡ true
Step-is_safe {x} (Step.nq gh w n) h = glock_nq-is_safe x gh w n h
Step-is_safe {x} (Step.dq gh w) h = glock_dq-is_safe x gh w h
Step-is_safe {x} (Step.cb st w) h = glock_cb-is_safe x st w h
Step-is_safe {x} (Step.complete n w a) h = glock_complete-is_safe x n w a h
Step-is_safe {x} (Step.work v w) h = glock_work-is_safe x v w h

pub Reach-is_safe : (now hold : ℕ) {x : Glock} → Reach (new_glock now hold) x → is_safe x ≡ true
Reach-is_safe now hold Reach.start = new_glock-is_safe now hold
Reach-is_safe now hold (Reach.later r s) = Step-is_safe s (Reach-is_safe now hold r)

-- Whatever holders come and go, whatever other nodes ask for and whatever the lock manager
-- answers, in any order from a new glock, any two holders that have the glock at once can share
-- it (the same state, and both with NODE_SCOPE if it is exclusive), and the glock is in a state
-- that serves each of them, if each new holder asks for one state without ANY, and an answer
-- comes only to a question.
pub Reach-all_share :
    (now hold : ℕ) {x : Glock}
    → Reach (new_glock now hold) x
    → all_share x.gl_holders ≡ true × all_covered x.gl_state x.gl_holders ≡ true
Reach-all_share now hold {x} r =
    let o = Reach-is_safe now hold r in
    (
      in_order-all_share x.gl_state x.gl_holders (ground (arith, o)),
      in_order-all_covered x.gl_state x.gl_holders (ground (arith, o)),
    )
