-- ===== src/Waiters.antt =====
-- The locks that wait for a reply from another node: fs/dlm/lock.c 1411-1606.
pub mod Count
pub mod Twice
use lockify.Base.{
  ℕ, ◌+◌, ◌-◌, Bool, true, false, not, ◌&&◌, ◌||◌, List, [], ◌∷◌, Option, none, some, if◌then◌else◌,
  ◌==◌, list_del,
}
use lockify.State.Events.{
  MsgType, request, convert_msg, unlock, cancel_msg, request_reply, convert_reply, unlock_reply,
  cancel_reply, lookup_msg, lookup_reply, notify_msg, notify_reply, NodeId, Errno, success, einval,
  ebusy, minus_one,
}
use lockify.State.{State, Lkb, modify, dlm_assert}
use lockify.State.Set.{hold_lkb, unhold_lkb}

-- `none` is -1.
unfoldable pub msg_reply_type : MsgType → Option MsgType
msg_reply_type request = some request_reply
msg_reply_type convert_msg = some convert_reply
msg_reply_type unlock = some unlock_reply
msg_reply_type cancel_msg = some cancel_reply
msg_reply_type lookup_msg = some lookup_reply
msg_reply_type notify_msg = some notify_reply
msg_reply_type _ = none

abbrev pub is_waiting : Lkb → Bool
is_waiting l = elim l.wait_type [ none ↦ false | some t ↦ true ]

abbrev pub is_unlock : MsgType → Bool
is_unlock unlock = true
is_unlock _ = false

abbrev pub is_cancel : MsgType → Bool
is_cancel cancel_msg = true
is_cancel _ = false

abbrev pub is_convert : MsgType → Bool
is_convert convert_msg = true
is_convert _ = false

abbrev pub is_unlock_reply : MsgType → Bool
is_unlock_reply unlock_reply = true
is_unlock_reply _ = false

abbrev pub is_cancel_reply : MsgType → Bool
is_cancel_reply cancel_reply = true
is_cancel_reply _ = false

abbrev pub is_convert_reply : MsgType → Bool
is_convert_reply convert_reply = true
is_convert_reply _ = false

abbrev pub is_notify_reply : MsgType → Bool
is_notify_reply notify_reply = true
is_notify_reply _ = false

-- `lkb->lkb_wait_type` is that one.
abbrev pub waits_for : (MsgType → Bool) → Lkb → Bool
waits_for p l = elim l.wait_type [ none ↦ false | some t ↦ p t ]

unfoldable pub overlap_by_unlock : Lkb → Lkb
overlap_by_unlock l = record l { overlap_unlock = true; wait_count = l.wait_count + 1 }

unfoldable pub overlap_by_cancel : Lkb → Lkb
overlap_by_cancel l = record l { overlap_cancel = true; wait_count = l.wait_count + 1 }

unfoldable pub start_wait : MsgType → NodeId → Lkb → Lkb
start_wait mstype to l = record l {
  wait_count = l.wait_count + 1;
  wait_type = some mstype;
  wait_nodeid = to;
}

-- The last part of `add_to_waiters`, for a lock that waits for nothing yet.
unfoldable pub wait_first : State → ℕ → MsgType → NodeId → State
wait_first s i mstype to =
    let t = dlm_assert ((s.lkbs i).wait_count == 0) s in
    let u = hold_lkb (modify t i (start_wait mstype to)) i in record u { waiters = i ∷ u.waiters }

unfoldable pub add_to_waiters : State → ℕ → MsgType → NodeId → State × Errno
add_to_waiters s i mstype to =
    let l = s.lkbs i in
    if l.overlap_unlock || (l.overlap_cancel && is_cancel mstype)
    then (s, einval)
    else if is_waiting l || l.overlap_cancel
    then (if is_unlock mstype
        then (hold_lkb (modify s i overlap_by_unlock) i, success)
        else if is_cancel mstype
        then (hold_lkb (modify s i overlap_by_cancel) i, success)
        else (s, ebusy))
    else (wait_first s i mstype to, success)

unfoldable pub clear_overlap_unlock : Lkb → Lkb
clear_overlap_unlock l = record l { overlap_unlock = false }

unfoldable pub clear_overlap_cancel : Lkb → Lkb
clear_overlap_cancel l = record l { overlap_cancel = false }

-- The operation that waited is done, or given up: one reply less to come.
unfoldable pub give_up_wait : Lkb → Lkb
give_up_wait l = record l { wait_type = none; wait_count = l.wait_count - 1 }

unfoldable pub clear_wait_type : Lkb → Lkb
clear_wait_type l = record l { wait_type = none }

unfoldable pub end_wait : Lkb → Lkb
end_wait l = record l { resend = false; wait_count = l.wait_count - 1 }

-- `out_del`, from its second statement on.
unfoldable pub out_del : State → ℕ → State
out_del s i =
    let t = modify (dlm_assert (not ((s.lkbs i).wait_count == 0)) s) i end_wait in
    let u = if (t.lkbs i).wait_count == 0 then record t { waiters = list_del i t.waiters } else t in
    unhold_lkb u i

-- `out_del` after an overlapping unlock or cancel, its flag cleared.
unfoldable pub out_del_overlap : State → ℕ → State
out_del_overlap s i =
    if is_waiting (s.lkbs i)
    then out_del (unhold_lkb (modify s i give_up_wait) i) i
    else out_del s i

-- `_remove_from_waiters`; `granted` says that there is a message and that its result is 0.
unfoldable pub remove_waiter : State → ℕ → MsgType → Bool → State × Errno
remove_waiter s i mstype granted =
    let l = s.lkbs i in
    if is_unlock_reply mstype && l.overlap_unlock
    then (out_del_overlap (modify s i clear_overlap_unlock) i, success)
    else if is_cancel_reply mstype && l.overlap_cancel
    then (out_del_overlap (modify s i clear_overlap_cancel) i, success)
    else if is_cancel_reply mstype && not (waits_for is_cancel l)
    then (s, minus_one)
    else if is_convert_reply mstype && waits_for is_convert l && granted && l.overlap_cancel
    then (
      out_del (unhold_lkb (modify (modify s i clear_overlap_cancel) i give_up_wait) i) i,
      success,
    )
    else if is_waiting l || is_notify_reply mstype
    then (out_del (modify s i clear_wait_type) i, success)
    else (s, minus_one)

unfoldable pub remove_from_waiters : State → ℕ → MsgType → State × Errno
remove_from_waiters s i mstype = remove_waiter s i mstype false
