-- ===== src/Send.antt =====
-- Requests to another node and what is left undone if they cannot be sent: fs/dlm/lock.c
-- 3516-3578, 3624-3716, and the reply to a conversion, 3815-3824 and 4487-4529.
use lockify.Base.{ℕ, Bool, true, false, not, ◌&&◌, [], Option, none, some, if◌then◌else◌, ◌==◌}
use lockify.Modes.{Mode}
use lockify.State.Flags.{no_flags}
use lockify.State.Events.{
  NodeId, node, MsgType, request, convert_msg, unlock, cancel_msg, convert_reply, lookup_msg,
  lookup_reply, notify_msg, notify_reply, Message, Errno, success, eagain, edeadlk, einprogress,
  enoent, enobufs, is_success, LkSts, no_sbflags,
}
use lockify.State.{State, modify, down_conversion}
use lockify.State.Set.{add_ref, add_child, remove_child, put_lkb, set_reply_flags}
use lockify.Queue.{add_lkb, del_lkb}
use lockify.Wire.{create_message, send_args, send_message, queue_cast}
use lockify.Grant.{munge_demoted, revert_lock, grant_lock_pc}
use lockify.Waiters.{msg_reply_type, add_to_waiters, remove_from_waiters}

-- The fail path of `send_common`; every type that it is called with has a reply type.
abbrev pub take_back : State → ℕ → Option MsgType → State
take_back s i none = s
take_back s i (some reply) = (remove_from_waiters s i reply).0

-- From the call of `create_message` on.
unfoldable pub transmit : State → ℕ → MsgType → NodeId → Option MsgType → State × Errno
transmit s i mstype to reply =
    let (t, got) = create_message s in
    if got
    then (send_message t (send_args t i mstype to), success)
    else (take_back t i reply, enobufs)

unfoldable pub send_common : State → ℕ → MsgType → State × Errno
send_common s i mstype =
    let (t, error) = add_to_waiters s i mstype s.rsb.res_nodeid in
    if is_success error
    then transmit t i mstype s.rsb.res_nodeid (msg_reply_type mstype)
    else (t, error)

unfoldable pub send_request : State → ℕ → State × Errno
send_request s i = send_common s i request

unfoldable pub send_unlock : State → ℕ → State × Errno
send_unlock s i = send_common s i unlock

unfoldable pub send_cancel : State → ℕ → State × Errno
send_cancel s i = send_common s i cancel_msg

unfoldable pub receive_flags_reply : State → ℕ → Message → Bool → State
receive_flags_reply s i ms is_local =
    if is_local then s else modify s i (set_reply_flags ms.m_sbflags ms.m_user)

abbrev pub follow_demotion : State → ℕ → State
follow_demotion s i = if (s.lkbs i).sbflags.demoted then munge_demoted s i else s

-- `__receive_convert_reply`, by the result that the master sent.
unfoldable pub convert_replied : State → ℕ → Message → Bool → Errno → State
convert_replied s i ms is_local eagain = queue_cast s i eagain
convert_replied s i ms is_local edeadlk =
    queue_cast (revert_lock (receive_flags_reply s i ms is_local) i).0 i edeadlk
convert_replied s i ms is_local einprogress =
    let t = follow_demotion (receive_flags_reply s i ms is_local) i in
    add_lkb (del_lkb t i) i LkSts.convert
convert_replied s i ms is_local success =
    let t = follow_demotion (receive_flags_reply s i ms is_local) i in
    queue_cast (grant_lock_pc t i ms) i success
convert_replied s i ms is_local error = s

-- `ls_local_ms` as `send_convert` fills it.
abbrev pub local_ms : Message
local_ms = record {
  m_from = 0;
  m_type = convert_reply;
  m_to = node 0;
  m_nodeid = node 0;
  m_lkid = 0;
  m_remid = 0;
  m_exflags = no_flags;
  m_sbflags = no_sbflags;
  m_user = false;
  m_lvbseq = 0;
  m_status = LkSts.off;
  m_grmode = Mode.nl;
  m_rqmode = Mode.nl;
  m_ast = false;
  m_bast = false;
  m_bastmode = Mode.nl;
  m_result = success;
  m_extra = [];
}

-- A down conversion goes without a reply from the master: it is granted here.
unfoldable pub send_convert : State → ℕ → State × Errno
send_convert s i =
    let (t, error) = send_common s i convert_msg in
    if is_success error && down_conversion (t.lkbs i)
    then (convert_replied (remove_from_waiters t i convert_reply).0 i local_ms true success, error)
    else (t, error)

unfoldable pub send_lookup : State → ℕ → State × Errno
send_lookup s i =
    let to = node s.env.dir_nodeid in
    let (t, error) = add_to_waiters s i lookup_msg to in
    if is_success error then transmit t i lookup_msg to (some lookup_reply) else (t, error)

-- The lock joins the children of its parent, which cannot be unlocked before they are done. The
-- reference that `find_lkb` takes is dropped again.
unfoldable pub join_parent : State → ℕ → State × Errno
join_parent s i =
    let parent = (s.lkbs i).parent_lkid in
    if parent == 0
    then (s, success)
    else if not (s.present parent)
    then (s, enoent)
    else (put_lkb (modify (modify s parent add_ref) parent (add_child i)) parent, success)

unfoldable pub send_notify : State → ℕ → State × Errno
send_notify s i =
    let to = node s.env.dir_nodeid in
    let (t, error) = join_parent s i in
    let (u, error') = add_to_waiters t i notify_msg to in
    if not (is_success error)
    then (t, error)
    else if is_success error'
    then transmit u i notify_msg to (some notify_reply)
    else (u, error')

unfoldable pub resend_notify : State → ℕ → State × Errno
resend_notify s i = transmit s i notify_msg (node s.env.dir_nodeid) none

-- `receive_notify_reply` for the lock that the message names. Where the parent is gone it returns
-- before the lock is taken off the waiters, and with the reference that `find_lkb` took.
unfoldable pub receive_notify_reply : State → ℕ → State
receive_notify_reply s i =
    let parent = (s.lkbs i).parent_lkid in
    let t = modify s i add_ref in
    let u = put_lkb (modify (modify t parent add_ref) parent (remove_child i)) parent in
    let done = λ (w : State). put_lkb (remove_from_waiters w i notify_reply).0 i in
    if not (s.present i)
    then s
    else if parent == 0
    then done t
    else if not (s.present parent)
    then t
    else done u
