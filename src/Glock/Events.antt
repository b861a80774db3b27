-- ===== src/Glock/Events.antt =====
-- Each of what happens to a glock keeps its holders in order: fs/gfs2/glock.c 1052-1095,
-- 1475-1642 and 1847-1926.
use lockify.Base.{
  ℕ, ◌≡◌, Bool, true, false, not, ◌&&◌, [], ◌∷◌, ◌++◌, none, if◌then◌else◌, ◌==◌, ◌%◌, arith,
}
use lockify.Glock.{
  LmState, unlocked, same, Holder, Glock, World, GhError, no_error, eio, bug_on,
  glock_blocked_by_withdraw,
}
use lockify.Glock.Promote.{
  may_grant, find_first_holder, queue_work, hold_glock, demote_ok, set_demote,
}
use lockify.Glock.Machine.{handle_callback, finish_xmote, run_queue}
use lockify.Glock.Queue.{
  recursive, some_wait, give_up, add_to_queue, unfreeze, glock_nq, remove_holder, needs_demote,
  has_holders, glock_dq, held_for, glock_cb, should_freeze, glock_complete, take_reply,
  demote_pending, demote_in_time, put_work, glock_work,
}
use lockify.Glock.Moves.{
  remove_holder-all_wait, remove_holder-in_order, remove_holder-exact_states, last-all_wait,
  last-in_order, last-exact_states,
}
use lockify.Glock.Xmote.{queue_work-is_safe}
use lockify.Glock.Finish.{finish_xmote-is_safe, run_queue-is_safe}
use lockify.Glock.Steps.{is_asked, is_safe, choose-holds}

-- A request of one state, by a holder that is not queued yet.
abbrev pub is_new : Holder → Bool
is_new gh = not gh.any && not (same gh.gh_state unlocked) && not gh.holder

give_up-is_safe : (gl : Glock) (gh : Holder) → is_safe gl ≡ true → is_safe (give_up gl gh) ≡ true
give_up-is_safe gl gh h = h

enqueue-is_safe :
    (gl : Glock) (gh : Holder)
    → is_new gh ≡ true
    → is_safe gl ≡ true
    → is_safe (record gl { gl_holders = gl.gl_holders ++ gh ∷ [] }) ≡ true
enqueue-is_safe gl gh n h = ground (
  arith,
  n,
  h,
  last-all_wait gl.gl_holders gh,
  last-in_order gl.gl_state gl.gl_holders gh,
  last-exact_states gl.gl_holders gh,
)

pub add_to_queue-is_safe :
    (gl : Glock) (gh : Holder) (w : World)
    → is_new gh ≡ true
    → is_safe gl ≡ true
    → is_safe (add_to_queue gl gh w) ≡ true
unfolding add_to_queue
add_to_queue-is_safe gl gh w n h =
    let new = record gh { wait = true } in
    let t = bug_on gh.wait gl in
    let more = record t { gl_holders = t.gl_holders ++ new ∷ [] } in
    let futile =
      (gh.try && gl.flag_lock && not (may_grant gl.gl_state (find_first_holder gl.gl_holders) gh))
      && some_wait gl.gl_holders in
    let trapped = recursive w.flock gh gl.gl_holders in
    let rest = if futile then give_up t new else more in
    choose-holds is_safe (give_up t new) (if trapped then bug_on true t else rest)
      (gh.try && gl.flag_invalidate_in_progress) (λ e. h)
      (λ e.
        choose-holds is_safe (bug_on true t) rest trapped (λ e. h)
          (λ e.
            choose-holds is_safe (give_up t new) more futile (λ e. h)
              (λ e. enqueue-is_safe t new n h)))

pub unfreeze-is_safe :
    (gl : Glock) (gh : Holder) → is_safe gl ≡ true → is_safe (unfreeze gl gh) ≡ true
unfolding unfreeze
unfreeze-is_safe gl gh h =
    let t = record gl { flag_frozen = false; flag_reply_pending = true } in
    choose-holds is_safe (queue_work (hold_glock t)) gl (gh.noexp && gl.flag_frozen)
      (λ e. queue_work-is_safe (hold_glock t) (ground (arith, h, e))) (λ e. h)

-- `gfs2_glock_nq`, an error included.
pub glock_nq-is_safe :
    (gl : Glock) (gh : Holder) (w : World)
    → is_new gh ≡ true
    → is_safe gl ≡ true
    → is_safe (glock_nq gl gh w).0 ≡ true
unfolding glock_nq
glock_nq-is_safe gl gh w n h = by_withdraw (glock_blocked_by_withdraw w && not gh.noexp)
  where
    new : Holder
    new = record gh { gh_error = no_error }

    t : Glock
    t = record gl { flag_lru = false }

    by_withdraw :
        (b : Bool)
        → is_safe (
            let r : Glock × GhError =
              if b
              then (gl, eio)
              else (run_queue (unfreeze (add_to_queue t new w) new) true w, no_error) in
            r.0)
          ≡ true
    by_withdraw true = h
    by_withdraw false =
        run_queue-is_safe (unfreeze (add_to_queue t new w) new) true w
          (unfreeze-is_safe (add_to_queue t new w) new (add_to_queue-is_safe t new w n h))

handle_callback-is_safe :
    (gl : Glock) (st : LmState) (d : Bool)
    → is_safe gl ≡ true
    → is_safe (handle_callback gl st d) ≡ true
unfolding handle_callback
handle_callback-is_safe gl st d h = ground (arith, h)

leave-is_safe :
    (gl : Glock) (n : ℕ)
    → is_safe gl ≡ true
    → is_safe (record gl { gl_holders = remove_holder n gl.gl_holders }) ≡ true
leave-is_safe gl n h = ground (
  arith,
  h,
  remove_holder-all_wait n gl.gl_holders,
  remove_holder-in_order n gl.gl_state gl.gl_holders,
  remove_holder-exact_states n gl.gl_holders,
)

pub glock_dq-is_safe :
    (gl : Glock) (gh : Holder) (w : World) → is_safe gl ≡ true → is_safe (glock_dq gl gh w) ≡ true
unfolding glock_dq
glock_dq-is_safe gl gh w h =
    choose-holds is_safe v (queue_work (hold_glock v))
      (not (needs_demote u) && not (has_holders u.gl_holders)) (λ e. v-is_safe)
      (λ e. queue_work-is_safe (hold_glock v) v-is_safe)
  where
    t : Glock
    t = if gh.nocache then handle_callback gl unlocked false else gl

    u : Glock
    u = record t { gl_holders = remove_holder gh.gh t.gl_holders }

    v : Glock
    v = if not u.flag_lflush && demote_ok u w then record u { flag_lru = true } else u

    u-is_safe : is_safe u ≡ true
    u-is_safe = leave-is_safe t gh.gh (
        choose-holds is_safe (handle_callback gl unlocked false) gl gh.nocache
          (λ e. handle_callback-is_safe gl unlocked false h) (λ e. h))

    v-is_safe : is_safe v ≡ true
    v-is_safe =
        choose-holds is_safe (record u { flag_lru = true }) u (not u.flag_lflush && demote_ok u w)
          (λ e. u-is_safe) (λ e. u-is_safe)

pub glock_cb-is_safe :
    (gl : Glock) (st : LmState) (w : World) → is_safe gl ≡ true → is_safe (glock_cb gl st w) ≡ true
unfolding glock_cb
glock_cb-is_safe gl st w h =
    let t = hold_glock gl in
    let delay =
      if has_holders t.gl_holders && w.inode
      then (if t.flag_reply_pending then t.gl_hold_time else held_for t w)
      else 0 in
    queue_work-is_safe (handle_callback t st (not (delay == 0)))
      (handle_callback-is_safe t st (not (delay == 0)) h)

-- An answer to what was asked, frozen or handed to the work.
pub glock_complete-is_safe :
    (gl : Glock) (n : ℕ) (w : World)
    → is_asked gl.asked ≡ true
    → is_safe gl ≡ true
    → is_safe (glock_complete gl n w) ≡ true
unfolding glock_complete
glock_complete-is_safe gl n w a h =
    let t = record gl { gl_reply = n % 256; asked = none } in
    let u = record t { flag_reply_pending = true } in
    choose-holds is_safe (record t { flag_frozen = true }) (queue_work (hold_glock u))
      (w.block_locks && should_freeze t) (λ e. ground (arith, a, h))
      (λ e. queue_work-is_safe (hold_glock u) (ground (arith, a, h)))

pub take_reply-is_safe :
    (gl : Glock) (w : World) → is_safe gl ≡ true → is_safe (take_reply gl w) ≡ true
unfolding take_reply
take_reply-is_safe gl w h =
    let t = record gl { flag_reply_pending = false } in
    choose-holds is_safe (finish_xmote t gl.gl_reply w) gl gl.flag_reply_pending
      (λ e. finish_xmote-is_safe t gl.gl_reply w (ground (arith, h, e))) (λ e. h)

pub demote_in_time-is_safe :
    (gl : Glock) (w : World) → is_safe gl ≡ true → is_safe (demote_in_time gl w) ≡ true
unfolding demote_in_time
demote_in_time-is_safe gl w h =
    choose-holds is_safe (set_demote (record gl { flag_pending_demote = false })) gl
      (demote_pending gl && held_for gl w == 0) (λ e. h) (λ e. h)

put_work-is_safe :
    (replied delayed : Bool) (gl : Glock)
    → is_safe gl ≡ true
    → is_safe (put_work replied delayed gl) ≡ true
put_work-is_safe replied delayed gl h =
    choose-holds is_safe (queue_work gl) gl delayed (λ e. queue_work-is_safe gl h) (λ e. h)

pub glock_work-is_safe :
    (gl : Glock) (v w : World) → is_safe gl ≡ true → is_safe (glock_work gl v w) ≡ true
unfolding glock_work
glock_work-is_safe gl v w h =
    let t = take_reply (record gl { queued = false }) v in
    let delayed = demote_pending t && not (held_for t w == 0) in
    put_work-is_safe gl.flag_reply_pending delayed (run_queue (demote_in_time t w) false w) (
      run_queue-is_safe (demote_in_time t w) false w
        (demote_in_time-is_safe t w (take_reply-is_safe (record gl { queued = false }) v h)))
