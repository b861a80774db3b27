-- ===== src/Glock/Xmote.antt =====
-- The state of a glock changes while nobody holds it: fs/gfs2/glock.c 630-645 and 669-806.
use lockify.Base.{◌≡◌, Bool, true, false, not, ◌&&◌, ◌||◌, Option, some, if◌then◌else◌, ◌==◌, arith}
use lockify.Glock.{
  LmState, unlocked, exclusive, deferred, shared, same, glock_blocked_by_withdraw, bug_on, Holder,
  Glock, World, later,
}
use lockify.Glock.Promote.{demote_wake, queue_work, hold_glock, do_error, do_promote, state_change}
use lockify.Glock.Machine.{
  tries, sees_expired, note_request, reached, finish_reached, ask, withdraw, skip_inval,
  prepare_inval, sync_and_ask, do_xmote, handle_callback, try_again,
}
use lockify.Glock.Steps.{
  asked-is_safe, choose-holds, do_error-is_served, do_promote-is_done, handle_callback-is_served,
  is_done, is_safe, is_served, is_served-is_done, is_served-is_safe, state_change-is_served,
  unlock_glock-is_safe,
}

-- The target is reached: whoever can have the glock now gets it.
pub reached-is_done :
    (gl : Glock) (st : LmState) (w : World) → is_served gl ≡ true → is_done (reached gl st w) ≡ true
unfolding reached
reached-is_done gl st w h =
    choose-holds is_done t (if w.xmote_bh == 0 then (do_promote t).0 else do_error t w.xmote_bh)
      (same st unlocked) (λ e. is_served-is_done t served)
      (λ e.
        choose-holds is_done (do_promote t).0 (do_error t w.xmote_bh) (w.xmote_bh == 0)
          (λ e. do_promote-is_done t (is_served-is_done t served))
          (λ e. is_served-is_done (do_error t w.xmote_bh) (do_error-is_served t w.xmote_bh served)))
  where
    t : Glock
    t =
        if gl.flag_demote_in_progress
        then demote_wake (record gl { flag_demote_in_progress = false })
        else gl

    served : is_served t ≡ true
    served =
        choose-holds is_served (demote_wake (record gl { flag_demote_in_progress = false })) gl
          gl.flag_demote_in_progress (λ e. h) (λ e. h)

finish_reached-is_safe :
    (gl : Glock) (st : LmState) (w : World)
    → is_served gl ≡ true
    → is_safe (finish_reached gl st w) ≡ true
unfolding finish_reached
finish_reached-is_safe gl st w h =
    unlock_glock-is_safe (reached (state_change gl st w) st w)
      (reached-is_done (state_change gl st w) st w (state_change-is_served gl st w h))

pub queue_work-is_safe : (gl : Glock) → is_safe gl ≡ true → is_safe (queue_work gl) ≡ true
queue_work-is_safe gl h = ground (arith, h)

bug_on-is_safe : (gl : Glock) (b : Bool) → is_safe gl ≡ true → is_safe (bug_on b gl) ≡ true
bug_on-is_safe gl b h = h

ask-is_safe :
    (gl : Glock) (st : LmState) (w : World) → is_served gl ≡ true → is_safe (ask gl st w) ≡ true
unfolding ask
ask-is_safe gl st w h =
    choose-holds is_safe (queue_work (finish_reached gl st w))
      (if w.lm_lock_einval || w.lm_lock_fails
        then bug_on (not w.withdrawn) gl
        else record gl { asked = some st })
      (w.lm_lock_einval && same gl.gl_target unlocked && same st unlocked && w.skip_dlm_unlock)
      (λ e. queue_work-is_safe (finish_reached gl st w) (finish_reached-is_safe gl st w h))
      (λ e.
        choose-holds is_safe (bug_on (not w.withdrawn) gl) (record gl { asked = some st })
          (w.lm_lock_einval || w.lm_lock_fails) (λ e. is_served-is_safe gl h)
          (λ e. asked-is_safe gl st h))

withdraw-is_safe : (gl : Glock) (w : World) → is_served gl ≡ true → is_safe (withdraw gl w) ≡ true
unfolding withdraw
withdraw-is_safe gl w h =
    let t = state_change (handle_callback gl unlocked false) unlocked w in
    queue_work-is_safe (record t { flag_lock = false; flag_demote_in_progress = false })
      (unlock_glock-is_safe (record t { flag_demote_in_progress = false })
        (is_served-is_done (record t { flag_demote_in_progress = false })
          (state_change-is_served (handle_callback gl unlocked false) unlocked w
            (handle_callback-is_served gl unlocked false h))))

skip_inval-is_safe :
    (gl : Glock) (st : LmState) (w : World)
    → is_served gl ≡ true
    → is_safe (skip_inval gl st w) ≡ true
unfolding skip_inval
skip_inval-is_safe gl st w h =
    let v = later w in
    let t = hold_glock gl in
    let u = record t { flag_invalidate_in_progress = false } in
    choose-holds is_safe (if v.system_glock then ask u st v else withdraw t v) (ask t st v)
      (glock_blocked_by_withdraw v && (not (same st unlocked) || v.withdraw_recovery))
      (λ e.
        choose-holds is_safe (ask u st v) (withdraw t v) v.system_glock (λ e. ask-is_safe u st v h)
          (λ e. withdraw-is_safe t v h))
      (λ e. ask-is_safe t st v h)

prepare_inval-is_served :
    (gl : Glock) (st : LmState) (w : World)
    → is_served gl ≡ true
    → is_served (prepare_inval gl st w) ≡ true
unfolding prepare_inval
prepare_inval-is_served gl st w h =
    let t = record gl { flag_invalidate_in_progress = true } in
    choose-holds is_served (do_error t 0) gl ((same st unlocked || same st deferred) && w.has_inval)
      (λ e. do_error-is_served t 0 h) (λ e. h)

sync_and_ask-is_safe :
    (gl : Glock) (st : LmState) (w : World)
    → is_served gl ≡ true
    → is_safe (sync_and_ask gl st w) ≡ true
unfolding sync_and_ask
sync_and_ask-is_safe gl st w h =
    let t = record gl { flag_invalidate_in_progress = false } in
    let v = record w { log_error = true } in
    choose-holds is_safe (skip_inval gl st v) (skip_inval t st w) w.sync_fails
      (λ e. skip_inval-is_safe gl st v h) (λ e. skip_inval-is_safe t st w h)

note_request-is_served :
    (gl : Glock) (st : LmState) (b : Bool)
    → is_served gl ≡ true
    → is_served (note_request gl st b) ≡ true
unfolding note_request
note_request-is_served gl st b h = ground (arith, h)

-- The state of the glock is asked for, or set, only while nobody holds it.
pub do_xmote-is_safe :
    (gl : Glock) (gh : Option Holder) (st : LmState) (w : World)
    → is_served gl ≡ true
    → is_safe (do_xmote gl gh st w) ≡ true
unfolding do_xmote
do_xmote-is_safe gl gh st w h =
    let t = bug_on (same gl.gl_state st || same gl.gl_state gl.gl_target) gl in
    let u = note_request (prepare_inval t st w) st (tries gh) in
    let inval = (same st unlocked || same st deferred) && w.has_inval in
    choose-holds is_safe (skip_inval gl st w)
      (if inval && gl.flag_invalidate_in_progress then t else sync_and_ask u st w)
      (not (same st unlocked) && glock_blocked_by_withdraw w && sees_expired gh)
      (λ e. skip_inval-is_safe gl st w h)
      (λ e.
        choose-holds is_safe t (sync_and_ask u st w) (inval && gl.flag_invalidate_in_progress)
          (λ e. is_served-is_safe t h)
          (λ e. sync_and_ask-is_safe u st w (
            note_request-is_served (prepare_inval t st w) st (tries gh)
              (prepare_inval-is_served t st w h))))

pub try_again-is_safe :
    (gl : Glock) (gh : Option Holder) (st : LmState) (w : World)
    → is_served gl ≡ true
    → is_safe (try_again gl gh st w) ≡ true
unfolding try_again
try_again-is_safe gl gh unlocked w h = do_xmote-is_safe gl gh gl.gl_target w h
try_again-is_safe gl gh shared w h = do_xmote-is_safe gl gh unlocked w h
try_again-is_safe gl gh deferred w h = do_xmote-is_safe gl gh unlocked w h
try_again-is_safe gl gh exclusive w h = is_served-is_safe gl h
