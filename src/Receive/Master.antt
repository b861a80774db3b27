-- ===== src/Receive/Master.antt =====
-- The handlers of the master of a resource: fs/dlm/lock.c 3974-4190.
use lockify.Base.{ℕ, Bool, true, false, not, if◌then◌else◌, ◌==◌}
use lockify.State.Events.{
  Message, Errno, success, einprogress, enoent, is_success, request_reply, convert_reply,
  unlock_reply, cancel_reply,
}
use lockify.State.{State, Lkb, modify, down_conversion}
use lockify.State.Set.{put_lkb}
use lockify.Op.{
  do_request, do_request_effects, do_convert, do_convert_effects, do_unlock, do_unlock_effects,
  do_cancel, do_cancel_effects,
}
use lockify.Receive.{
  create_lkb, find_lkb, receive_flags, receive_request_args, receive_convert_args,
  receive_unlock_args, validate_message, validate_master_nodeid, send_common_reply, reply_failure,
}

-- What other code makes of the request: `create_lkb` fails, or gives the lock an id; `find_rsb`
-- fails, or finds the resource; and whether the lockspace has a directory.
pub record Lookup : Type 0 where
  pub create_error : Errno
  pub id : ℕ
  pub find_error : Errno
  pub no_directory : Bool

unfoldable pub set_mstcpy : Lkb → Lkb
set_mstcpy l = record l { mstcpy = true }

-- `fail` with the new lock put.
abbrev pub give_up_request : State → ℕ → Message → Errno → State × Errno
give_up_request s i ms error = reply_failure (put_lkb s i) ms request_reply error

abbrev pub is_accepted : Errno → Bool
is_accepted success = true
is_accepted einprogress = true
is_accepted _ = false

-- From `attach_lkb` on.
unfoldable pub serve_request : State → ℕ → State × Errno
serve_request s i =
    let (t, error) = do_request s i in
    let u = do_request_effects (send_common_reply t i request_reply error) i error in
    (if is_accepted error then u else put_lkb u i, success)

-- The resource is this node's, or becomes this node's on the word of the directory node.
unfoldable pub check_master : State → ℕ → Bool → State × Errno
check_master s from no_directory =
    if s.rsb.master_nodeid == s.env.our_nodeid
    then (s, success)
    else validate_master_nodeid s from no_directory

-- The new lock: `create_lkb`, `receive_flags`, and the lock is a master copy.
unfoldable pub new_master_copy : State → ℕ → Message → State
new_master_copy s i ms = modify (receive_flags (create_lkb s i) i ms) i set_mstcpy

unfoldable pub receive_request : State → Message → Lookup → State × Errno
receive_request s ms l =
    let (t, error) = receive_request_args (new_master_copy s l.id ms) l.id ms in
    let (u, bad_master) = check_master t ms.m_from l.no_directory in
    if not (is_success l.create_error)
    then reply_failure s ms request_reply l.create_error
    else if not (is_success error)
    then give_up_request t l.id ms error
    else if not (is_success l.find_error)
    then give_up_request t l.id ms l.find_error
    else if not (is_success bad_master)
    then give_up_request u l.id ms bad_master
    else serve_request u l.id

-- A lock of the message is there, and is the one that the sender means.
abbrev pub with_remid :
    State → Message → (State → ℕ → State × Errno) → (State → Errno → State × Errno) → State × Errno
with_remid s ms go fail =
    let t = find_lkb s ms.m_remid in
    if not (s.present ms.m_remid)
    then fail s enoent
    else if not ((t.lkbs ms.m_remid).remid == ms.m_lkid)
    then fail (put_lkb t ms.m_remid) enoent
    else go t ms.m_remid

-- `out`: the reference that `find_lkb` took is put.
abbrev pub put_found : State → ℕ → State × Errno
put_found s i = (put_lkb s i, success)

-- A down conversion is granted by its sender too, and is not replied to.
unfoldable pub serve_convert : State → ℕ → State
serve_convert s i =
    let (t, error) = do_convert s i in
    do_convert_effects
      (if down_conversion (s.lkbs i) then t else send_common_reply t i convert_reply error) i error

-- From `hold_rsb` to `out`.
unfoldable pub take_convert : State → ℕ → Message → State
take_convert s i ms =
    let (t, error) = receive_convert_args (receive_flags s i ms) i ms in
    if not (is_success (validate_message (s.lkbs i) ms))
    then s
    else if is_success error
    then serve_convert t i
    else send_common_reply t i convert_reply error

unfoldable pub receive_convert : State → Message → State × Errno
receive_convert s ms =
    with_remid s ms (λ t i. put_found (take_convert t i ms) i)
      (λ t error. reply_failure t ms convert_reply error)

unfoldable pub serve_unlock : State → ℕ → State
serve_unlock s i =
    let (t, error) = do_unlock s i in
    do_unlock_effects (send_common_reply t i unlock_reply error) i error

unfoldable pub take_unlock : State → ℕ → Message → State
take_unlock s i ms =
    let (t, error) = receive_unlock_args (receive_flags s i ms) i ms in
    if not (is_success (validate_message (s.lkbs i) ms))
    then s
    else if is_success error
    then serve_unlock t i
    else send_common_reply t i unlock_reply error

unfoldable pub receive_unlock : State → Message → State × Errno
receive_unlock s ms =
    with_remid s ms (λ t i. put_found (take_unlock t i ms) i)
      (λ t error. reply_failure t ms unlock_reply error)

unfoldable pub serve_cancel : State → ℕ → State
serve_cancel s i =
    let (t, error) = do_cancel s i in
    do_cancel_effects (send_common_reply t i cancel_reply error) i error

-- The flags are received before the message is validated.
unfoldable pub take_cancel : State → ℕ → Message → State
take_cancel s i ms =
    let t = receive_flags s i ms in
    if is_success (validate_message (t.lkbs i) ms) then serve_cancel t i else t

unfoldable pub receive_cancel : State → Message → State × Errno
receive_cancel s ms =
    if s.present ms.m_remid
    then put_found (take_cancel (find_lkb s ms.m_remid) ms.m_remid ms) ms.m_remid
    else reply_failure s ms cancel_reply enoent
