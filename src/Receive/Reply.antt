-- ===== src/Receive/Reply.antt =====
-- The handlers of the node that holds the process copy: fs/dlm/lock.c 4191-4247 and 4364-4751.
use lockify.Base.{ℕ, Bool, true, false, not, ◌&&◌, ◌||◌, if◌then◌else◌, ◌==◌}
use lockify.State.Events.{
  NodeId, unset, node, node_eq, MsgType, lookup_msg, request_reply, lookup_reply, Message, Errno,
  success, eagain, einprogress, ebadr, enotblk, enoent, eunlock, ecancel, is_success, LkSts,
}
use lockify.State.{State, modify, put_rsb, is_overlap}
use lockify.State.Set.{unhold_lkb, put_lkb, set_nodeid, set_highbast}
use lockify.Queue.{add_lkb}
use lockify.Wire.{queue_cast, queue_cast_overlap, queue_bast}
use lockify.Grant.{grant_lock_pc, remove_lock_pc, revert_lock, munge_altmode}
use lockify.Waiters.{
  waits_for, remove_from_waiters, remove_waiter, clear_overlap_unlock, clear_overlap_cancel,
}
use lockify.Send.{receive_flags_reply, convert_replied, send_unlock, send_cancel}
use lockify.Stage.{rsb_request_lock, confirm_master, process_lookup_list}
use lockify.Receive.{find_lkb, validate_message}

-- `find_lkb`, the handler's work if the message is valid, and `dlm_put_lkb`.
abbrev pub with_valid : State → Message → (State → ℕ → State) → State × Errno
with_valid s ms work =
    let t = find_lkb s ms.m_remid in
    if not (s.present ms.m_remid)
    then (s, enoent)
    else if is_success (validate_message (t.lkbs ms.m_remid) ms)
    then (put_lkb (work t ms.m_remid) ms.m_remid, success)
    else (put_lkb t ms.m_remid, success)

abbrev follow_altmode : State → ℕ → MsgType → State
follow_altmode s i mstype = if (s.lkbs i).sbflags.altmode then munge_altmode s i mstype else s

unfoldable pub take_grant : State → ℕ → Message → State
take_grant s i ms =
    let t = follow_altmode (receive_flags_reply s i ms false) i ms.m_type in
    queue_cast (grant_lock_pc t i ms) i success

unfoldable pub receive_grant : State → Message → State × Errno
receive_grant s ms = with_valid s ms (λ t i. take_grant t i ms)

unfoldable pub take_bast : State → ℕ → Message → State
take_bast s i ms = modify (queue_bast s i ms.m_bastmode) i (set_highbast ms.m_bastmode)

unfoldable pub receive_bast : State → Message → State × Errno
receive_bast s ms = with_valid s ms (λ t i. take_bast t i ms)

-- The reply ends a wait, or it is not heeded: `remove_from_waiters_ms`, and `work` by the result.
abbrev pub if_awaited : (State → ℕ → Message → Errno → State) → State → ℕ → Message → State
if_awaited work s i ms =
    let (t, error) = remove_waiter s i ms.m_type (is_success ms.m_result) in
    if is_success error then work t i ms ms.m_result else t

unfoldable pub receive_convert_reply : State → Message → State × Errno
receive_convert_reply s ms =
    with_valid s ms (λ t i. if_awaited (λ u j m error. convert_replied u j m false error) t i ms)

-- By the result of `do_unlock` on the master.
unfoldable pub unlock_replied : State → ℕ → Message → Errno → State
unlock_replied s i ms eunlock =
    queue_cast (remove_lock_pc (receive_flags_reply s i ms false) i) i eunlock
unlock_replied s i ms error = s

unfoldable pub receive_unlock_reply : State → Message → State × Errno
receive_unlock_reply s ms = with_valid s ms (λ t i. if_awaited unlock_replied t i ms)

-- By the result of `do_cancel` on the master.
unfoldable pub cancel_replied : State → ℕ → Message → Errno → State
cancel_replied s i ms ecancel =
    queue_cast (revert_lock (receive_flags_reply s i ms false) i).0 i ecancel
cancel_replied s i ms error = s

unfoldable pub receive_cancel_reply : State → Message → State × Errno
receive_cancel_reply s ms = with_valid s ms (λ t i. if_awaited cancel_replied t i ms)

abbrev is_lookup : MsgType → Bool
is_lookup lookup_msg = true
is_lookup _ = false

abbrev set_master_to : NodeId → ℕ → State → State
set_master_to res master s = put_rsb s (record s.rsb { master_nodeid = master; res_nodeid = res })

unfoldable pub set_remid : ℕ → State → ℕ → State
set_remid n s i = modify s i (λ l. record l { remid = n })

-- The directory node is the master, and took the lookup for a request.
unfoldable pub learn_master : State → ℕ → ℕ → State
learn_master s i from = modify (set_master_to (node from) from s) i (set_nodeid (node from))

-- The request is queued or granted on the master.
unfoldable pub take_over : State → ℕ → Message → State
take_over s i ms =
    let t = set_remid ms.m_lkid (receive_flags_reply s i ms false) i in follow_altmode t i ms.m_type

-- The node that was asked is not the master: forget it, unless this node is the directory node or
-- the master.
unfoldable pub forget_master : State → ℕ → State
forget_master s i =
    let our = s.env.our_nodeid in
    if not (s.env.dir_nodeid == our) && not (s.rsb.master_nodeid == our)
    then modify (set_master_to unset 0 s) i (set_nodeid unset)
    else s

unfoldable pub ask_again : State → ℕ → Errno → State
ask_again s i error =
    let t = (rsb_request_lock s i).0 in
    if is_overlap (s.lkbs i)
    then unhold_lkb (confirm_master (queue_cast_overlap s i) error) i
    else if t.rsb.master_nodeid == t.env.our_nodeid
    then confirm_master t success
    else t

-- The switch of `receive_request_reply`, on the result of `do_request` on the master.
unfoldable pub request_replied : State → ℕ → Message → Errno → State
request_replied s i ms eagain = unhold_lkb (confirm_master (queue_cast s i eagain) eagain) i
request_replied s i ms einprogress =
    confirm_master (add_lkb (take_over s i ms) i LkSts.waiting) einprogress
request_replied s i ms success =
    confirm_master (queue_cast (grant_lock_pc (take_over s i ms) i ms) i success) success
request_replied s i ms ebadr = ask_again (forget_master s i) i ebadr
request_replied s i ms enotblk = ask_again (forget_master s i) i enotblk
request_replied s i ms error = s

abbrev clear_overlap : State → ℕ → State
clear_overlap s i = modify (modify s i clear_overlap_unlock) i clear_overlap_cancel

abbrev is_queued : Errno → Bool
is_queued einprogress = true
is_queued _ = false

-- An unlock or a cancel that came while the request was on its way is sent now.
unfoldable pub send_overlap : State → ℕ → Errno → State
send_overlap s i result =
    let t = clear_overlap s i in
    if (is_success result || is_queued result) && (s.lkbs i).overlap_unlock
    then (send_unlock t i).0
    else if is_queued result && (s.lkbs i).overlap_cancel
    then (send_cancel t i).0
    else t

unfoldable pub take_request_reply : State → ℕ → Message → State
take_request_reply s i ms =
    let (t, error) = remove_from_waiters s i request_reply in
    let u = if waits_for is_lookup (s.lkbs i) then learn_master t i ms.m_from else t in
    if is_success error then send_overlap (request_replied u i ms ms.m_result) i ms.m_result else t

unfoldable pub receive_request_reply : State → Message → State × Errno
receive_request_reply s ms = with_valid s ms (λ t i. take_request_reply t i ms)

-- What the directory node answered: this node is the master, it does not know, or another is.
unfoldable pub answered : State → ℕ → NodeId → State
answered s i unset = modify (set_master_to unset 0 s) i (set_nodeid unset)
answered s i (node n) =
    if n == s.env.our_nodeid
    then put_rsb s (record s.rsb { master_nodeid = n; res_nodeid = node 0; first_lkid = 0 })
    else set_master_to (node n) n s

unfoldable pub take_lookup_reply : State → ℕ → Message → State
take_lookup_reply s i ms =
    let (t, error) = remove_from_waiters s i lookup_reply in
    let u = answered t i ms.m_nodeid in
    let asked =
      if is_overlap (u.lkbs i)
      then unhold_lkb (queue_cast_overlap u i) i
      else (rsb_request_lock u i).0 in
    if not (is_success error)
    then t
    else if node_eq ms.m_nodeid (node s.env.our_nodeid)
    then process_lookup_list asked
    else asked

-- `m_lkid` of a reply to a lookup is copied from the lookup, so it is an id on this node.
unfoldable pub receive_lookup_reply : State → Message → State
receive_lookup_reply s ms =
    if s.present ms.m_lkid
    then put_lkb (take_lookup_reply (find_lkb s ms.m_lkid) ms.m_lkid ms) ms.m_lkid
    else s
