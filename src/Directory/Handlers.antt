-- ===== src/Directory/Handlers.antt =====
-- Messages about the table: fs/dlm/lock.c 3781-3803, 4252-4270 and 4823-4860.
use lockify.Base.{ℕ, false, ◌&&◌, Option, none, some, if◌then◌else◌, length}
use lockify.Modes.{nl}
use lockify.State.Flags.{no_flags}
use lockify.State.Events.{
  NodeId, node, node_eq, MsgType, lookup_reply, notify_reply, Message, Errno, is_success,
  no_sbflags, LkSts,
}
use lockify.State.{State}
use lockify.Wire.{create_message, send_message}
use lockify.Receive.Master.{Lookup, receive_request}
use lockify.Directory.{RsbTable, Reply, LookupFlags, dlm_master_lookup, dlm_master_notify}

-- The reply to a message about a name: the memory of a new message is zeroed.
unfoldable pub answer : State → Message → MsgType → NodeId → Errno → Message
answer s ms mstype ret rv = record {
  m_from = s.env.our_nodeid;
  m_type = mstype;
  m_to = node ms.m_from;
  m_nodeid = ret;
  m_lkid = ms.m_lkid;
  m_remid = 0;
  m_exflags = no_flags;
  m_sbflags = no_sbflags;
  m_user = false;
  m_lvbseq = 0;
  m_status = LkSts.off;
  m_grmode = nl;
  m_rqmode = nl;
  m_ast = false;
  m_bast = false;
  m_bastmode = nl;
  m_result = rv;
  m_extra = ms.m_extra;
}

unfoldable pub send_lookup_reply : State → Message → NodeId → Errno → State
send_lookup_reply s ms ret rv =
    let (t, got) = create_message s in
    if got then send_message t (answer t ms lookup_reply ret rv) else t

unfoldable pub send_notify_reply : State → Message → NodeId → Errno → State
send_notify_reply s ms ret rv =
    let (t, got) = create_message s in
    if got then send_message t (answer t ms notify_reply ret rv) else t

-- `ret_nodeid` is not set before the call: `stack` is what it then holds.
abbrev pub ret_nodeid : NodeId → Option NodeId → NodeId
ret_nodeid stack none = stack
ret_nodeid stack (some n) = n

abbrev pub no_recovery : LookupFlags
no_recovery = record { recover_dir = false; recover_master = false }

-- The answer of the directory goes back, or the message is taken as a request.
unfoldable pub answer_lookup : State → Message → Lookup → NodeId → Reply → State
answer_lookup s ms l stack r =
    let ret = ret_nodeid stack r.r_nodeid in
    if is_success r.error && node_eq ret (node s.env.our_nodeid)
    then (receive_request s ms l).0
    else send_lookup_reply s ms ret r.error

unfoldable pub receive_lookup : ℕ → State → RsbTable → Message → Lookup → NodeId → State × RsbTable
receive_lookup fuel s t ms l stack =
    let r = dlm_master_lookup fuel t ms.m_from (length ms.m_extra) no_recovery in
    (answer_lookup s ms l stack r, r.after)

unfoldable pub receive_notify : ℕ → State → RsbTable → Message → NodeId → State × RsbTable
receive_notify fuel s t ms stack =
    let r = dlm_master_notify fuel t ms.m_from (length ms.m_extra) in
    (send_notify_reply s ms (ret_nodeid stack r.r_nodeid) r.error, r.after)
