-- ===== src/Wire.antt =====
-- Messages to other nodes and callbacks to the owner of a lock: fs/dlm/lock.c 298-332 and
-- 3397-3515, 3580-3622. What a call of `dlm_midcomms_get_mhandle` returns is a parameter (`Env`).
use lockify.Base.{
  ℕ, ◌+◌, Bool, true, false, ◌&&◌, List, [], ◌∷◌, Option, none, some, if◌then◌else◌, take,
}
use lockify.Modes.{Mode}
use lockify.State.Events.{
  NodeId, MsgType, request, convert_msg, unlock, request_reply, convert_reply, grant, bast,
  lookup_msg, notify_msg, Callback, cast, basted, Message, Errno, success, ecancel, edeadlk,
  eunlock,
}
use lockify.State.{State, Lkb, modify, dlm_assert}
use lockify.State.Set.{clear_deadlock_cancel}

-- `_create_message`: a handle for the message, or -ENOBUFS.
abbrev pub create_message : State → State × Bool
create_message s = (record s { mhandles = s.mhandles + 1 }, s.env.get_mhandle s.mhandles)

-- `m_extra` holds the value block of the lock, if it has one and asks for it.
abbrev bytes : Option (List ℕ) → List ℕ
bytes none = []
bytes (some b) = b

abbrev lvb_extra : State → Lkb → List ℕ
lvb_extra s l = if l.exflags.valblk then take s.env.lvblen (bytes l.lvbptr) else []

-- The switch of `create_message` and of `send_args` on the type.
abbrev extra : MsgType → State → Lkb → List ℕ
extra request s l = s.rsb.res_name
extra lookup_msg s l = s.rsb.res_name
extra notify_msg s l = s.rsb.res_name
extra convert_msg s l = lvb_extra s l
extra unlock s l = lvb_extra s l
extra request_reply s l = lvb_extra s l
extra convert_reply s l = lvb_extra s l
extra grant s l = lvb_extra s l
extra _ s l = []

unfoldable pub send_args : State → ℕ → MsgType → NodeId → Message
send_args s i mstype to = record {
  m_from = s.env.our_nodeid;
  m_type = mstype;
  m_to = to;
  m_nodeid = l.nodeid;
  m_lkid = i;
  m_remid = l.remid;
  m_exflags = l.exflags;
  m_sbflags = l.sbflags;
  m_user = l.user;
  m_lvbseq = l.lvbseq;
  m_status = l.status;
  m_grmode = l.grmode;
  m_rqmode = l.rqmode;
  m_ast = l.astfn;
  m_bast = l.bastfn;
  m_bastmode = Mode.nl;
  m_result = success;
  m_extra = extra mstype s l;
}
  where
    l : Lkb
    l = s.lkbs i

-- `send_message` cannot fail.
abbrev pub send_message : State → Message → State
send_message s ms = record s { sent = ms ∷ s.sent }

unfoldable pub send_grant : State → ℕ → State
send_grant s i =
    let (t, got) = create_message s in
    if got then send_message t (send_args t i grant (t.lkbs i).nodeid) else t

unfoldable pub send_bast : State → ℕ → Mode → State
send_bast s i mode =
    let (t, got) = create_message s in
    if got
    then send_message t (record (send_args t i bast (t.lkbs i).nodeid) { m_bastmode = mode })
    else t

abbrev pub is_ecancel : Errno → Bool
is_ecancel ecancel = true
is_ecancel _ = false

abbrev add_cb : State → Callback → State
add_cb s cb = record s { callbacks = cb ∷ s.callbacks }

unfoldable pub queue_cast : State → ℕ → Errno → State
queue_cast s i rv =
    let l = s.lkbs i in
    let t = dlm_assert l.lksb s in
    if l.mstcpy
    then s
    else if is_ecancel rv && l.deadlock_cancel
    then add_cb (modify t i clear_deadlock_cancel) (cast i l.grmode edeadlk l.sbflags)
    else add_cb t (cast i l.grmode rv l.sbflags)

unfoldable pub queue_cast_overlap : State → ℕ → State
queue_cast_overlap s i = queue_cast s i (if (s.lkbs i).overlap_unlock then eunlock else ecancel)

unfoldable pub queue_bast : State → ℕ → Mode → State
queue_bast s i rqmode =
    if (s.lkbs i).mstcpy then send_bast s i rqmode else add_cb s (basted i rqmode)
