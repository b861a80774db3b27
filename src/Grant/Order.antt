-- ===== src/Grant/Order.antt =====
-- The order in which locks are granted: `_can_be_granted`, fs/dlm/lock.c 2106-2250.
use lockify.Base.{ℕ, ◌≡◌, Bool, false, not, ◌&&◌, ◌||◌, if◌then◌else◌, arith, list_empty}
use lockify.Modes.{iv, mode_eq}
use lockify.State.{State}
use lockify.Queue.{first_in_list, queue_conflict}
use lockify.Grant.{grantable}

-- What stands before a lock, where neither EXPEDITE nor NOORDER nor recovery lets it pass: for a
-- new request that is granted at once, both queues are empty; for one that waits, the convert
-- queue is empty and it is the first that waits; a conversion that is granted later is the first
-- that converts; and one that is granted at once passes the others, unless QUECVT is set.
abbrev pub is_next : State → ℕ → Bool → Bool
is_next s i now =
    let conv = not (mode_eq (s.lkbs i).grmode iv) in
    if now
    then (if conv
        then not (s.lkbs i).exflags.quecvt || list_empty s.rsb.convertqueue
        else list_empty s.rsb.convertqueue && list_empty s.rsb.waitqueue)
    else if conv
    then first_in_list i s.rsb.convertqueue
    else list_empty s.rsb.convertqueue && first_in_list i s.rsb.waitqueue

-- Without EXPEDITE, NOORDER and recovery, _can_be_granted says yes exactly if the lock is next
-- in order and conflicts with no lock of the grant queue and of the convert queue: a new
-- request only if nothing waits or converts, a waiting lock only as the first that waits with
-- nothing converting, a queued conversion only as the first that converts.
pub grantable-is_next :
    (s : State) (i : ℕ) (now : Bool)
    → (s.lkbs i).exflags.expedite ≡ false
    → (s.lkbs i).exflags.noorder ≡ false
    → grantable s i now false ≡ (
        is_next s i now
        && not (queue_conflict s.lkbs s.rsb.grantqueue i)
        && not (queue_conflict s.lkbs s.rsb.convertqueue i))
unfolding grantable
grantable-is_next s i now x n = ground arith
