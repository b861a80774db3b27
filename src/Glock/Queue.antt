-- ===== src/Glock/Queue.antt =====
-- Holders come and go, and the lock manager answers: fs/gfs2/glock.c 1052-1095, 1475-1640 and
-- 1847-1926. Waiting for the answer is left to the order of the steps.
use lockify.Base.{
  ℕ, ◌+◌, ◌-◌, ◌/◌, ◌%◌, Bool, true, false, not, ◌&&◌, ◌||◌, List, [], ◌∷◌, ◌++◌, none,
  if◌then◌else◌, ◌==◌,
}
use lockify.Glock.{
  LmState, unlocked, exclusive, same, GhError, no_error, eio, try_failed, Holder, Glock, World,
  bug_on, glock_blocked_by_withdraw,
}
use lockify.Glock.Promote.{
  may_grant, holder_wake, find_first_holder, set_demote, queue_work, hold_glock, demote_ok,
}
use lockify.Glock.Machine.{handle_callback, finish_xmote, run_queue}

abbrev pub has_holders : List Holder → Bool
has_holders [] = false
has_holders (gh ∷ rest) = true

-- A holder of the same process, where that is a deadlock.
unfoldable pub recursive : Bool → Holder → List Holder → Bool
recursive flock gh [] = false
recursive flock gh (gh2 ∷ rest) =
    (gh2.owner_pid == gh.owner_pid && not flock && (not gh2.nopid || same gh2.gh_state unlocked))
    || recursive flock gh rest

-- A try lock cannot be granted beside one that is not a try lock.
unfoldable pub some_wait : List Holder → Bool
some_wait [] = false
some_wait (gh2 ∷ rest) = not gh2.try || some_wait rest

abbrev pub give_up : Glock → Holder → Glock
give_up gl gh = record gl {
  done = gl.done ++ holder_wake (record gh { gh_error = try_failed }) ∷ [];
}

unfoldable pub add_to_queue : Glock → Holder → World → Glock
add_to_queue gl gh w =
    let new = record gh { wait = true } in
    let t = bug_on gh.wait gl in
    let try_futile =
      gh.try && gl.flag_lock && not (may_grant gl.gl_state (find_first_holder gl.gl_holders) gh) in
    if gh.try && gl.flag_invalidate_in_progress
    then give_up t new
    else if recursive w.flock gh gl.gl_holders
    then bug_on true t
    else if try_futile && some_wait gl.gl_holders
    then give_up t new
    else record t { gl_holders = t.gl_holders ++ new ∷ [] }

-- A frozen reply is handled for a request that does not mind an expired journal.
unfoldable pub unfreeze : Glock → Holder → Glock
unfreeze gl gh =
    if gh.noexp && gl.flag_frozen
    then queue_work (hold_glock (record gl { flag_frozen = false; flag_reply_pending = true }))
    else gl

-- `gfs2_glock_nq` up to its wait.
unfoldable pub glock_nq : Glock → Holder → World → Glock × GhError
glock_nq gl gh w =
    let new = record gh { gh_error = no_error } in
    let t = record gl { flag_lru = false } in
    if glock_blocked_by_withdraw w && not gh.noexp
    then (gl, eio)
    else (run_queue (unfreeze (add_to_queue t new w) new) true w, no_error)

unfoldable pub remove_holder : ℕ → List Holder → List Holder
remove_holder n [] = []
remove_holder n (gh ∷ rest) = if gh.gh == n then rest else gh ∷ remove_holder n rest

abbrev pub needs_demote : Glock → Bool
needs_demote gl = gl.flag_demote || gl.flag_pending_demote

-- `__gfs2_glock_dq`. The delay of the work is left to the order of the steps.
unfoldable pub glock_dq : Glock → Holder → World → Glock
glock_dq gl gh w =
    let t = if gh.nocache then handle_callback gl unlocked false else gl in
    let u = record t { gl_holders = remove_holder gh.gh t.gl_holders } in
    let v = if not u.flag_lflush && demote_ok u w then record u { flag_lru = true } else u in
    if not (needs_demote u) && not (has_holders u.gl_holders) then v else queue_work (hold_glock v)

-- How long the glock is held yet.
abbrev pub held_for : Glock → World → ℕ
held_for gl w = gl.gl_tchange + gl.gl_hold_time - w.jiffies

unfoldable pub glock_cb : Glock → LmState → World → Glock
glock_cb gl state w =
    let t = hold_glock gl in
    let delay =
      if has_holders t.gl_holders && w.inode
      then (if t.flag_reply_pending then t.gl_hold_time else held_for t w)
      else 0 in
    queue_work (handle_callback t state (not (delay == 0)))

unfoldable pub all_expire : List Holder → Bool
all_expire [] = true
all_expire (gh ∷ rest) = (gh.holder || not gh.noexp) && all_expire rest

unfoldable pub should_freeze : Glock → Bool
should_freeze gl =
    gl.gl_reply / 4 == 0 && not (same gl.gl_target unlocked) && all_expire gl.gl_holders

-- The lock manager has answered; the field has eight bits.
unfoldable pub glock_complete : Glock → ℕ → World → Glock
glock_complete gl ret w =
    let t = record gl { gl_reply = ret % 256; asked = none } in
    if w.block_locks && should_freeze t
    then record t { flag_frozen = true }
    else queue_work (hold_glock (record t { flag_reply_pending = true }))

-- `glock_work_func`, its first half with `v` and its second with `w`.
unfoldable pub take_reply : Glock → World → Glock
take_reply gl v =
    if gl.flag_reply_pending
    then finish_xmote (record gl { flag_reply_pending = false }) gl.gl_reply v
    else gl

abbrev pub demote_pending : Glock → Bool
demote_pending gl =
    gl.flag_pending_demote
    && not (same gl.gl_state unlocked)
    && not (same gl.gl_demote_state exclusive)

unfoldable pub demote_in_time : Glock → World → Glock
demote_in_time gl w =
    if demote_pending gl && held_for gl w == 0
    then set_demote (record gl { flag_pending_demote = false })
    else gl

-- The references that the work drops: one for itself, one for the reply, and none for a delay.
abbrev pub put_work : Bool → Bool → Glock → Glock
put_work replied delayed gl =
    let t = if delayed then queue_work gl else gl in
    record t {
      count = t.count - (if replied then (if delayed then 1 else 2) else if delayed then 0 else 1);
    }

unfoldable pub glock_work : Glock → World → World → Glock
glock_work gl v w =
    let t = take_reply (record gl { queued = false }) v in
    let delayed = demote_pending t && not (held_for t w == 0) in
    put_work gl.flag_reply_pending delayed (run_queue (demote_in_time t w) false w)
