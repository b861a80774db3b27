-- ===== src/Op.antt =====
-- The operations on the master of a resource, stage 4: fs/dlm/lock.c 2924-3072.
pub mod Answer
use lockify.Base.{true, false, not, ◌&&◌, ℕ, if◌then◌else◌}
use lockify.Modes.{iv}
use lockify.State.Events.{LkSts, Errno, success, eagain, einprogress, edeadlk, eunlock, ecancel}
use lockify.State.{State, can_be_queued, force_blocking_asts}
use lockify.Queue.{add_lkb, del_lkb}
use lockify.Wire.{queue_cast}
use lockify.Grant.{Reverted, can_be_granted, grantable, grant_lock, remove_lock, revert_lock}
use lockify.Pending.{
  grant_pending_convert, grant_pending_locks, send_blocking_asts, send_blocking_asts_all,
}

-- `grant_lock` and the completion callback.
abbrev pub grant_now : State → ℕ → State × Errno
grant_now s i = (queue_cast (grant_lock s i) i success, success)

abbrev pub refuse : State → ℕ → State × Errno
refuse s i = (queue_cast s i eagain, eagain)

unfoldable pub do_request : State → ℕ → State × Errno
do_request s i =
    let v = can_be_granted s i true false false in
    if v.ok
    then grant_now v.after i
    else if can_be_queued (v.after.lkbs i)
    then (add_lkb v.after i LkSts.waiting, einprogress)
    else refuse v.after i

unfoldable pub do_request_effects : State → ℕ → Errno → State
do_request_effects s i eagain =
    if force_blocking_asts (s.lkbs i) then send_blocking_asts_all s i else s
do_request_effects s i einprogress = send_blocking_asts s i
do_request_effects s i error = s

-- What follows the test for a deadlock in `do_convert`.
unfoldable pub queue_convert : State → ℕ → State × Errno
queue_convert s i =
    if can_be_queued (s.lkbs i)
    then (add_lkb (del_lkb s i) i LkSts.convert, einprogress)
    else refuse s i

unfoldable pub retry_demoted : State → ℕ → State × Errno
retry_demoted s i =
    let t = (grant_pending_convert s iv false 0).after in
    if grantable t i true false then grant_now t i else queue_convert t i

unfoldable pub do_convert : State → ℕ → State × Errno
do_convert s i =
    let v = can_be_granted s i true false true in
    let l = v.after.lkbs i in
    if v.ok
    then grant_now v.after i
    else if v.deadlk && not l.exflags.nodlckwt
    then (queue_cast (revert_lock v.after i).0 i edeadlk, edeadlk)
    else if l.sbflags.demoted
    then retry_demoted v.after i
    else queue_convert v.after i

unfoldable pub do_convert_effects : State → ℕ → Errno → State
do_convert_effects s i success = (grant_pending_locks s).after
do_convert_effects s i eagain =
    if force_blocking_asts (s.lkbs i) then send_blocking_asts_all s i else s
do_convert_effects s i einprogress = send_blocking_asts s i
do_convert_effects s i error = s

unfoldable pub do_unlock : State → ℕ → State × Errno
do_unlock s i = (queue_cast (remove_lock s i) i eunlock, eunlock)

unfoldable pub do_unlock_effects : State → ℕ → Errno → State
do_unlock_effects s i error = (grant_pending_locks s).after

unfoldable pub do_cancel : State → ℕ → State × Errno
do_cancel s i =
    let (t, r) = revert_lock s i in
    elim r [ Reverted.nothing ↦ (t, success) | _ ↦ (queue_cast t i ecancel, ecancel) ]

unfoldable pub do_cancel_effects : State → ℕ → Errno → State
do_cancel_effects s i success = s
do_cancel_effects s i error = (grant_pending_locks s).after
