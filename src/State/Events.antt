-- ===== src/State/Events.antt =====
-- What the code hands to other parts: the callbacks of a lock and the messages between nodes,
-- fs/dlm/dlm_internal.h 205-225 and 405-445, and the error codes.
use lockify.Base.{ℕ, Bool, true, false, ◌==◌, List}
use lockify.Modes.{Mode}
use lockify.State.Flags.{LkFlags}

-- A node id: `unset` is -1.
pub data NodeId : Type 0 where
  unset : NodeId
  node : ℕ → NodeId

abbrev pub node_eq : NodeId → NodeId → Bool
node_eq unset unset = true
node_eq unset (node b) = false
node_eq (node a) unset = false
node_eq (node a) (node b) = a == b

abbrev pub is_unset : NodeId → Bool
is_unset unset = true
is_unset (node n) = false

-- The return values, without their minus sign. `result` is 0.
pub data Errno : Type 0 where
  success : Errno
  einval : Errno
  ebusy : Errno
  eagain : Errno
  einprogress : Errno
  edeadlk : Errno
  ebadr : Errno
  enotblk : Errno
  enoent : Errno
  enobufs : Errno
  eintr : Errno
  enomem : Errno
  eexist : Errno
  ecancel : Errno  -- DLM_ECANCEL
  eunlock : Errno  -- DLM_EUNLOCK
  minus_one : Errno

abbrev pub is_success : Errno → Bool
is_success success = true
is_success _ = false

-- DLM_MSG_REQUEST .. DLM_MSG_NOTIFY_REPLY
pub data MsgType : Type 0 where
  request : MsgType
  convert_msg : MsgType
  unlock : MsgType
  cancel_msg : MsgType
  request_reply : MsgType
  convert_reply : MsgType
  unlock_reply : MsgType
  cancel_reply : MsgType
  grant : MsgType
  bast : MsgType
  lookup_msg : MsgType
  remove : MsgType
  lookup_reply : MsgType
  purge : MsgType
  notify_msg : MsgType
  notify_reply : MsgType

-- `lkb_status`: the queue on which the lock stands; `off` is 0.
pub data LkSts : Type 0 where
  off : LkSts
  waiting : LkSts
  granted : LkSts
  convert : LkSts

abbrev pub is_off : LkSts → Bool
is_off LkSts.off = true
is_off _ = false

abbrev pub is_granted : LkSts → Bool
is_granted LkSts.granted = true
is_granted _ = false

-- `lkb_sbflags`: DLM_SBF_DEMOTED, DLM_SBF_VALNOTVALID, DLM_SBF_ALTMODE
pub record SbFlags : Type 0 where
  pub demoted : Bool
  pub valnotvalid : Bool
  pub altmode : Bool

abbrev pub no_sbflags : SbFlags
no_sbflags = record { demoted = false; valnotvalid = false; altmode = false }

-- A call of `dlm_add_cb` for the lock `lkid`.
pub data Callback : Type 0 where
  cast : (lkid : ℕ) (mode : Mode) (status : Errno) (sbflags : SbFlags) → Callback
  basted : (lkid : ℕ) (mode : Mode) → Callback

-- `struct dlm_message`, as far as the code fills it from the lock and reads it.
pub record Message : Type 0 where
  pub m_from : ℕ  -- m_header.h_nodeid
  pub m_type : MsgType
  pub m_to : NodeId
  pub m_nodeid : NodeId
  pub m_lkid : ℕ
  pub m_remid : ℕ
  pub m_exflags : LkFlags
  pub m_sbflags : SbFlags
  pub m_user : Bool  -- m_flags, DLM_DFL_USER
  pub m_lvbseq : ℕ
  pub m_status : LkSts
  pub m_grmode : Mode
  pub m_rqmode : Mode
  pub m_ast : Bool  -- m_asts, DLM_CB_CAST
  pub m_bast : Bool  -- m_asts, DLM_CB_BAST
  pub m_bastmode : Mode
  pub m_result : Errno
  pub m_extra : List ℕ
