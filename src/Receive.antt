-- ===== src/Receive.antt =====
-- What the handlers of messages share: fs/dlm/lock.c 852-887, 1201-1274, 3734-3777 and 3808-3970.
-- A handler runs on the node whose state it is given; the message names a lock by its id there.
pub mod Master
pub mod Reply
pub mod Dispatch
pub mod Safety
pub mod Strangers
pub mod Blocks
pub mod Copies
use lockify.Base.{
  ℕ, ◌+◌, Bool, true, false, not, ◌&&◌, ◌||◌, [], Option, none, some, if◌then◌else◌, ◌==◌, update,
  length, ltb, List,
}
use lockify.Modes.{Mode, iv, nl}
use lockify.State.Flags.{no_flags}
use lockify.State.Events.{
  NodeId, unset, node, node_eq, is_unset, MsgType, request, convert_msg, unlock, cancel_msg,
  request_reply, convert_reply, unlock_reply, cancel_reply, grant, bast, Message, Errno, success,
  einval, ebusy, enomem, enotblk, is_success, LkSts, is_granted, no_sbflags,
}
use lockify.State.{State, Lkb, modify, put_rsb, is_process_copy}
use lockify.State.Set.{add_ref}
use lockify.Wire.{create_message, send_args, send_message}
use lockify.Lvb.{memcpy, zeros}

-- What `dlm_allocate_lkb` clears and `_create_lkb` fills in.
abbrev pub fresh_lkb : Lkb
fresh_lkb = record {
  ref = 1;
  nodeid = unset;
  remid = 0;
  exflags = no_flags;
  sbflags = no_sbflags;
  user = false;
  mstcpy = false;
  resend = false;
  overlap_unlock = false;
  overlap_cancel = false;
  endoflife = false;
  deadlock_cancel = false;
  lvbseq = 0;
  status = LkSts.off;
  rqmode = nl;
  grmode = iv;
  highbast = nl;
  wait_type = none;
  wait_count = 0;
  wait_nodeid = node 0;
  lvbptr = none;
  lksb = false;
  astfn = false;
  bastfn = false;
  astparam = 0;
  parent_lkid = 0;
  total_children = 0;
  child_waiters = [];
}

-- `idr_alloc` has given the lock the id `i`.
unfoldable pub create_lkb : State → ℕ → State
create_lkb s i = record s { lkbs = update s.lkbs i fresh_lkb; present = update s.present i true }

-- `find_lkb` where the table of ids has the lock.
abbrev pub find_lkb : State → ℕ → State
find_lkb s i = modify s i add_ref

unfoldable pub set_received_flags : Message → Lkb → Lkb
set_received_flags ms l = record l {
  exflags = ms.m_exflags;
  sbflags = ms.m_sbflags;
  user = ms.m_user;
}

unfoldable pub receive_flags : State → ℕ → Message → State
receive_flags s i ms = modify s i (set_received_flags ms)

abbrev pub lvb_allocated : State → Bool
lvb_allocated s = s.env.allocate_lvb s.lvb_allocs

abbrev pub count_lvb : State → State
count_lvb s = record s { lvb_allocs = s.lvb_allocs + 1 }

unfoldable pub set_lvbptr : Option (List ℕ) → Lkb → Lkb
set_lvbptr p l = record l { lvbptr = p }

-- The length that `receive_lvb` copies: no more than the block holds.
abbrev pub received_len : State → Message → ℕ
received_len s ms = if ltb s.env.lvblen (length ms.m_extra) then s.env.lvblen else length ms.m_extra

abbrev pub copy_lvb : State → ℕ → Message → List ℕ → State
copy_lvb s i ms dst = modify s i (set_lvbptr (some (memcpy dst ms.m_extra (received_len s ms))))

unfoldable pub receive_lvb : State → ℕ → Message → State × Errno
receive_lvb s i ms =
    if not (s.lkbs i).exflags.valblk then (s, success) else elim (s.lkbs i).lvbptr [
      | some dst ↦ (copy_lvb s i ms dst, success)
      | none ↦
          if lvb_allocated s
          then (copy_lvb (count_lvb s) i ms (zeros s.env.lvblen), success)
          else (count_lvb s, enomem)
    ]

unfoldable pub set_request_args : Message → Lkb → Lkb
set_request_args ms l = record l {
  nodeid = node ms.m_from;
  remid = ms.m_lkid;
  grmode = iv;
  rqmode = ms.m_rqmode;
  bastfn = ms.m_bast;
  astfn = ms.m_ast;
}

unfoldable pub receive_request_args : State → ℕ → Message → State × Errno
receive_request_args s i ms =
    let t = modify s i (set_request_args ms) in
    if not (t.lkbs i).exflags.valblk
    then (t, success)
    else if lvb_allocated t
    then (modify (count_lvb t) i (set_lvbptr (some (zeros s.env.lvblen))), success)
    else (modify (count_lvb t) i (set_lvbptr none), enomem)

unfoldable pub set_convert_args : Message → Lkb → Lkb
set_convert_args ms l = record l { rqmode = ms.m_rqmode; lvbseq = ms.m_lvbseq }

unfoldable pub receive_convert_args : State → ℕ → Message → State × Errno
receive_convert_args s i ms =
    let (t, error) = receive_lvb s i ms in
    if not (is_granted (s.lkbs i).status)
    then (s, ebusy)
    else if is_success error
    then (modify t i (set_convert_args ms), success)
    else (t, enomem)

unfoldable pub receive_unlock_args : State → ℕ → Message → State × Errno
receive_unlock_args s i ms = receive_lvb s i ms

-- The switch of `validate_message` on the type: who may send such a message about the lock.
abbrev from_process : Lkb → ℕ → Errno
from_process l from = if not l.mstcpy || not (node_eq l.nodeid (node from)) then einval else success

abbrev from_master : Lkb → ℕ → Errno
from_master l from =
    if not (is_process_copy l) || not (node_eq l.nodeid (node from)) then einval else success

abbrev from_first_master : Lkb → ℕ → Errno
from_first_master l from =
    if not (is_process_copy l)
    then einval
    else if not (is_unset l.nodeid) && not (node_eq l.nodeid (node from))
    then einval
    else success

abbrev pub validate_type : MsgType → Lkb → ℕ → Errno
validate_type convert_msg l from = from_process l from
validate_type unlock l from = from_process l from
validate_type cancel_msg l from = from_process l from
validate_type convert_reply l from = from_master l from
validate_type unlock_reply l from = from_master l from
validate_type cancel_reply l from = from_master l from
validate_type grant l from = from_master l from
validate_type bast l from = from_master l from
validate_type request_reply l from = from_first_master l from
validate_type _ l from = einval

unfoldable pub validate_message : Lkb → Message → Errno
validate_message l ms =
    if ms.m_user && not l.user then einval else validate_type ms.m_type l ms.m_from

-- The lockspace has no directory: `dlm_no_directory`.
unfoldable pub validate_master_nodeid : State → ℕ → Bool → State × Errno
validate_master_nodeid s from no_directory =
    if no_directory
    then (s, enotblk)
    else if not (from == s.env.dir_nodeid)
    then (s, enotblk)
    else (
      put_rsb s (record s.rsb { master_nodeid = s.env.our_nodeid; res_nodeid = node 0 }),
      success,
    )

-- `send_message` of the reply, if there is a handle for it.
unfoldable pub send_common_reply : State → ℕ → MsgType → Errno → State
send_common_reply s i mstype rv =
    let (t, got) = create_message s in
    if got
    then send_message t (record (send_args t i mstype (t.lkbs i).nodeid) { m_result = rv })
    else t

-- `ls_local_lkb` stands in the store at 0, which is no lock's id.
unfoldable pub set_local : Message → Lkb → Lkb
set_local ms l = record l { nodeid = node ms.m_from; remid = ms.m_lkid }

unfoldable pub setup_local_lkb : State → Message → State
setup_local_lkb s ms = modify s 0 (set_local ms)

-- `fail` of the handlers that reply: the lock that the message names is not there.
abbrev pub reply_failure : State → Message → MsgType → Errno → State × Errno
reply_failure s ms mstype error = (send_common_reply (setup_local_lkb s ms) 0 mstype error, error)
