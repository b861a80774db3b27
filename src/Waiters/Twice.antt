-- ===== src/Waiters/Twice.antt =====
-- A reply to a notification that comes once more: fs/dlm/lock.c 1543-1577 and 4863-4897, and the
-- repetition of a notification, fs/dlm/lockspace.c 292-303.
use lockify.Base.{ℕ, ◌≡◌, Bool, true, false, ==-refl, arith}
use lockify.State.Events.{notify_reply}
use lockify.State.{State, is_overlap}
use lockify.State.Set.{drop_ref}
use lockify.Waiters.{is_waiting, clear_wait_type, end_wait, out_del, remove_waiter}
use lockify.Waiters.Count.{IsCounted}

-- If the counts of outstanding replies are exact and a lock has nothing outstanding, one more
-- reply to its notification fails the assertion of _remove_from_waiters.
pub remove_waiter-twice :
    (s : State) (i : ℕ) (granted : Bool)
    → IsCounted s
    → is_waiting (s.lkbs i) ≡ false
    → is_overlap (s.lkbs i) ≡ false
    → (remove_waiter s i notify_reply granted).0.bug ≡ true
unfolding remove_waiter out_del end_wait clear_wait_type drop_ref
remove_waiter-twice s i granted v w o = ground (arith, v.exact i, ==-refl i)
