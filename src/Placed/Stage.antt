-- ===== src/Placed/Stage.antt =====
-- The queues under stage 3, on the master and on another node: fs/dlm/lock.c 3074-3150.
use lockify.Base.{ℕ, refl, Bool, true, ◌&&◌}
use lockify.Modes.{nl}
use lockify.State.Events.{Errno, success, is_success, convert_msg, convert_reply, Message}
use lockify.State.{State, is_remote, assert_known_master, down_conversion}
use lockify.State.Set.{set_grmode}
use lockify.Queue.Placed.{IsPlaced}
use lockify.Lvb.{set_lvb_lock_pc}
use lockify.Grant.{munge_demoted, grant_lock_pc}
use lockify.Send.{
  send_common, send_request, send_unlock, send_cancel, send_convert, convert_replied,
  receive_flags_reply, local_ms, follow_demotion,
}
use lockify.Op.{
  do_request, do_request_effects, do_convert, do_convert_effects, do_unlock, do_unlock_effects,
  do_cancel, do_cancel_effects,
}
use lockify.Op.Answer.{IsFresh, Quiet-IsFresh}
use lockify.Stage.{
  by_master, set_master, rsb_request_lock, rsb_convert_lock, rsb_unlock_lock, rsb_cancel_lock,
}
use lockify.Refine.Quiet.{queue_cast-Quiet, set_lvb_lock_pc-Quiet}
use lockify.Refine.Send.{send_common-Quiet, remove_from_waiters-Quiet}
use lockify.Refine.Stage.{set_master-Quiet, known-Quiet}
use lockify.Placed.{Quiet-IsPlaced, choose-IsPlaced, modify-IsPlaced, grant_held-IsPlaced}
use lockify.Placed.Pending.{grant_pending_locks-IsPlaced}
use lockify.Placed.Op.{
  do_request-IsPlaced, do_request_effects-IsPlaced, do_convert-IsPlaced,
  do_convert_effects-IsPlaced, do_unlock-IsPlaced, do_cancel-IsPlaced,
}

abbrev state_of : State × Errno → State
state_of r = r.0

abbrev waits_of : State × Bool → State
waits_of r = r.0

do_unlock_effects-IsPlaced :
    (s : State) (i : ℕ) (e : Errno) → IsPlaced s → IsPlaced (do_unlock_effects s i e)
unfolding do_unlock_effects
do_unlock_effects-IsPlaced s i e v = grant_pending_locks-IsPlaced s v

do_cancel_effects-IsPlaced :
    (s : State) (i : ℕ) (e : Errno) → IsPlaced s → IsPlaced (do_cancel_effects s i e)
unfolding do_cancel_effects
do_cancel_effects-IsPlaced s i success v = v
do_cancel_effects-IsPlaced s i e v = grant_pending_locks-IsPlaced s v

-- Stage 3 in general.
by_master-IsPlaced :
    (remote op : State → ℕ → State × Errno) (effects : State → ℕ → Errno → State) (s : State)
    (i : ℕ)
    → IsPlaced (remote (assert_known_master s) i).0
    → IsPlaced (op (assert_known_master s) i).0
    → ((t : State) (e : Errno) → IsPlaced t → IsPlaced (effects t i e))
    → IsPlaced (by_master remote op effects s i).0
by_master-IsPlaced remote op effects s i r d f =
    choose-IsPlaced state_of _ _ (is_remote s) (λ _. r) (λ _. f _ _ d)

known-IsPlaced : (s : State) → IsPlaced s → IsPlaced (assert_known_master s)
known-IsPlaced s v = Quiet-IsPlaced (known-Quiet s) v

-- If each lock of the resource stands on the queue that its status names, and there once, then
-- so it is after _unlock_lock.
pub rsb_unlock_lock-IsPlaced : (s : State) (i : ℕ) → IsPlaced s → IsPlaced (rsb_unlock_lock s i).0
unfolding rsb_unlock_lock send_unlock
rsb_unlock_lock-IsPlaced s i v =
    by_master-IsPlaced send_unlock do_unlock do_unlock_effects s i
      (Quiet-IsPlaced (send_common-Quiet _ i _) (known-IsPlaced s v))
      (do_unlock-IsPlaced _ i (known-IsPlaced s v)) (λ t e. do_unlock_effects-IsPlaced t i e)

-- If each lock of the resource stands on the queue that its status names, and there once, then
-- so it is after _cancel_lock, whether the lock converted, waited or had nothing to cancel.
pub rsb_cancel_lock-IsPlaced : (s : State) (i : ℕ) → IsPlaced s → IsPlaced (rsb_cancel_lock s i).0
unfolding rsb_cancel_lock send_cancel
rsb_cancel_lock-IsPlaced s i v =
    by_master-IsPlaced send_cancel do_cancel do_cancel_effects s i
      (Quiet-IsPlaced (send_common-Quiet _ i _) (known-IsPlaced s v))
      (do_cancel-IsPlaced _ i (known-IsPlaced s v)) (λ t e. do_cancel_effects-IsPlaced t i e)

-- If each lock of the resource stands on the queue that its status names, and there once, then
-- so it is after _request_lock for a lock that is on no queue, holds no mode and asks for one,
-- whatever the master, the flags and the answer.
pub rsb_request_lock-IsPlaced :
    (s : State) (i : ℕ) → IsFresh s i → IsPlaced s → IsPlaced (rsb_request_lock s i).0
unfolding rsb_request_lock send_request
rsb_request_lock-IsPlaced s i f v =
    choose-IsPlaced state_of _ _ (set_master s i).1 (λ _. w)
      (λ _.
        by_master-IsPlaced send_request do_request do_request_effects t i
          (Quiet-IsPlaced (send_common-Quiet _ i _) (known-IsPlaced t w))
          (do_request-IsPlaced _ i
            (Quiet-IsFresh i (known-Quiet t) (Quiet-IsFresh i (set_master-Quiet s i) f))
            (known-IsPlaced t w))
          (λ t e. do_request_effects-IsPlaced t i e))
  where
    t : State
    t = (set_master s i).0

    w : IsPlaced t
    w = Quiet-IsPlaced (set_master-Quiet s i) v

follow_demotion-IsPlaced : (s : State) (i : ℕ) → IsPlaced s → IsPlaced (follow_demotion s i)
unfolding munge_demoted set_grmode
follow_demotion-IsPlaced s i v =
    choose-IsPlaced (λ (s : State). s) _ _ (s.lkbs i).sbflags.demoted
      (λ _.
        choose-IsPlaced (λ (s : State). s) _ _ _ (λ _. v)
          (λ _. modify-IsPlaced s i (set_grmode nl) refl v))
      (λ _. v)

grant_lock_pc-IsPlaced :
    (s : State) (i : ℕ) (ms : Message) → IsPlaced s → IsPlaced (grant_lock_pc s i ms)
unfolding grant_lock_pc
grant_lock_pc-IsPlaced s i ms v =
    grant_held-IsPlaced (set_lvb_lock_pc s i ms) i (Quiet-IsPlaced (set_lvb_lock_pc-Quiet s i ms) v)

-- The reply that a down conversion makes for itself.
replied-IsPlaced :
    (s : State) (i : ℕ) → IsPlaced s → IsPlaced (convert_replied s i local_ms true success)
unfolding convert_replied receive_flags_reply
replied-IsPlaced s i v =
    Quiet-IsPlaced (queue_cast-Quiet _ i success)
      (grant_lock_pc-IsPlaced _ i local_ms (follow_demotion-IsPlaced s i v))

send_convert-IsPlaced : (s : State) (i : ℕ) → IsPlaced s → IsPlaced (send_convert s i).0
unfolding send_convert
send_convert-IsPlaced s i v =
    choose-IsPlaced state_of _ _
      (is_success (send_common s i convert_msg).1 && down_conversion (t.lkbs i))
      (λ _. replied-IsPlaced _ i (Quiet-IsPlaced (remove_from_waiters-Quiet t i convert_reply) w))
      (λ _. w)
  where
    t : State
    t = (send_common s i convert_msg).0

    w : IsPlaced t
    w = Quiet-IsPlaced (send_common-Quiet s i convert_msg) v

-- If each lock of the resource stands on the queue that its status names, and there once, then
-- so it is after _convert_lock, whatever the master, the flags and the answer.
pub rsb_convert_lock-IsPlaced : (s : State) (i : ℕ) → IsPlaced s → IsPlaced (rsb_convert_lock s i).0
unfolding rsb_convert_lock
rsb_convert_lock-IsPlaced s i v =
    by_master-IsPlaced send_convert do_convert do_convert_effects s i
      (send_convert-IsPlaced _ i (known-IsPlaced s v))
      (do_convert-IsPlaced _ i (known-IsPlaced s v)) (λ t e. do_convert_effects-IsPlaced t i e)
