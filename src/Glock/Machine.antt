-- ===== src/Glock/Machine.antt =====
-- The state machine of a glock: fs/gfs2/glock.c 571-649, 669-858 and 1418-1435. Each function is one
-- step; what it lets go of the spin lock for is done by `World`.
use lockify.Base.{
  ℕ, Bool, true, false, not, ◌&&◌, ◌||◌, List, [], ◌∷◌, ◌++◌, Option, none, some, if◌then◌else◌,
  ◌==◌,
}
use lockify.Glock.{
  LmState, unlocked, exclusive, deferred, shared, same, out_state, is_canceled, is_error, Holder,
  Glock, World, bug_on, later, glock_blocked_by_withdraw,
}
use lockify.Glock.Promote.{
  holder_wake, do_error, find_first_holder, find_first_waiter, do_promote, state_change, set_demote,
  demote_wake, queue_work, hold_glock,
}

abbrev pub demote_to : LmState → LmState → LmState
demote_to exclusive state = state
demote_to unlocked state = unlocked
demote_to old state = if same old state then old else unlocked

-- `gl_demote_time` and the callback of the operations are left out.
unfoldable pub handle_callback : Glock → LmState → Bool → Glock
handle_callback gl state delayed =
    let t = if delayed then record gl { flag_pending_demote = true } else set_demote gl in
    record t { gl_demote_state = demote_to t.gl_demote_state state }

-- The fast path of `finish_xmote`, up to `out`.
unfoldable pub reached : Glock → LmState → World → Glock
reached gl state w =
    let t =
      if gl.flag_demote_in_progress
      then demote_wake (record gl { flag_demote_in_progress = false })
      else gl in
    if same state unlocked
    then t
    else if w.xmote_bh == 0
    then (do_promote t).0
    else do_error t w.xmote_bh

-- `out` of `finish_xmote`, and of `run_queue`.
abbrev pub unlock_glock : Glock → Glock
unlock_glock gl = record gl { flag_lock = false }

-- `finish_xmote` for a target that is reached: `do_xmote` calls it with the target.
unfoldable pub finish_reached : Glock → LmState → World → Glock
finish_reached gl state w = unlock_glock (reached (state_change gl state w) state w)

-- The call of the lock manager, and what is made of its answer.
unfoldable pub ask : Glock → LmState → World → Glock
ask gl target w =
    if w.lm_lock_einval && same gl.gl_target unlocked && same target unlocked && w.skip_dlm_unlock
    then queue_work (finish_reached gl target w)
    else if w.lm_lock_einval || w.lm_lock_fails
    then bug_on (not w.withdrawn) gl
    else record gl { asked = some target }

-- A withdrawn file system asks for nothing more.
unfoldable pub withdraw : Glock → World → Glock
withdraw gl w =
    let t = state_change (handle_callback gl unlocked false) unlocked w in
    queue_work (record t { flag_lock = false; flag_demote_in_progress = false })

-- From `skip_inval` on.
unfoldable pub skip_inval : Glock → LmState → World → Glock
skip_inval gl target w =
    let t = hold_glock gl in
    let w' = later w in
    if glock_blocked_by_withdraw w' && (not (same target unlocked) || w'.withdraw_recovery)
    then (if w'.system_glock
        then ask (record t { flag_invalidate_in_progress = false }) target w'
        else withdraw t w')
    else ask t target w'

-- From the test for the invalidate operation to the call of the sync operation.
unfoldable pub prepare_inval : Glock → LmState → World → Glock
prepare_inval gl target w =
    if (same target unlocked || same target deferred) && w.has_inval
    then do_error (record gl { flag_invalidate_in_progress = true }) 0
    else gl

abbrev pub tries : Option Holder → Bool
tries none = false
tries (some gh) = gh.try

abbrev pub sees_expired : Option Holder → Bool
sees_expired none = false
sees_expired (some gh) = not gh.noexp

unfoldable pub note_request : Glock → LmState → Bool → Glock
note_request gl target try = record gl {
  gl_req = target;
  flag_blocking = not (same target unlocked || same gl.gl_state exclusive || try);
}

-- The part of `do_xmote` that the sync and the invalidate operations are in.
unfoldable pub sync_and_ask : Glock → LmState → World → Glock
sync_and_ask gl target w =
    if w.sync_fails
    then skip_inval gl target (record w { log_error = true })
    else skip_inval (record gl { flag_invalidate_in_progress = false }) target w

-- Without a holder the request is a demotion.
unfoldable pub do_xmote : Glock → Option Holder → LmState → World → Glock
do_xmote gl gh target w =
    let t = bug_on (same gl.gl_state target || same gl.gl_state gl.gl_target) gl in
    if not (same target unlocked) && glock_blocked_by_withdraw w && sees_expired gh
    then skip_inval gl target w
    else if (same target unlocked || same target deferred)
        && w.has_inval
        && gl.flag_invalidate_in_progress
    then t
    else sync_and_ask (note_request (prepare_inval t target w) target (tries gh)) target w

-- `list_move_tail` of the first waiter.
unfoldable pub waiter_to_tail : List Holder → List Holder
waiter_to_tail [] = []
waiter_to_tail (gh ∷ rest) = if gh.holder then gh ∷ waiter_to_tail rest else rest ++ gh ∷ []

-- `gfs2_holder_wake` of the first waiter.
unfoldable pub wake_waiter : List Holder → List Holder
wake_waiter [] = []
wake_waiter (gh ∷ rest) = if gh.holder then gh ∷ wake_waiter rest else holder_wake gh ∷ rest

abbrev pub target_of : Option Holder → LmState → LmState
target_of none state = state
target_of (some gh) state = gh.gh_state

abbrev pub with_target : Glock → LmState → Glock
with_target gl state = record gl { gl_target = state }

-- A canceled request: its holder goes to the back, and the next is tried.
unfoldable pub try_next : Glock → World → Glock
try_next gl w =
    let t = record gl { gl_holders = waiter_to_tail gl.gl_holders } in
    let gh = find_first_waiter t.gl_holders in
    let u = with_target t (target_of gh t.gl_target) in
    let (v, progress) = do_promote u in
    if progress then unlock_glock v else do_xmote v gh v.gl_target w

-- The switch on a state that is not the intended one.
unfoldable pub try_again : Glock → Option Holder → LmState → World → Glock
try_again gl gh unlocked w = do_xmote gl gh gl.gl_target w
try_again gl gh shared w = do_xmote gl gh unlocked w
try_again gl gh deferred w = do_xmote gl gh unlocked w
try_again gl gh exclusive w = bug_on true gl

abbrev pub is_some_holder : Option Holder → Bool
is_some_holder none = false
is_some_holder (some gh) = true

-- The state is not the intended one.
unfoldable pub missed : Glock → ℕ → World → Glock
missed gl ret w =
    let gh = find_first_waiter gl.gl_holders in
    let t = if is_canceled ret then record gl { gl_holders = wake_waiter gl.gl_holders } else gl in
    if is_some_holder gh && not t.flag_demote_in_progress
    then (if is_canceled ret
        then try_next t w
        else if is_error ret || tries gh
        then unlock_glock (do_error (with_target t t.gl_state) ret)
        else try_again t gh (out_state ret) w)
    else try_again t gh (out_state ret) w

-- A demotion to unlocked came while one to shared or deferred was on its way.
unfoldable pub retarget : Glock → LmState → Glock
retarget gl state =
    if gl.flag_demote_in_progress && not (same state unlocked) && same gl.gl_demote_state unlocked
    then with_target gl unlocked
    else gl

unfoldable pub finish_xmote : Glock → ℕ → World → Glock
finish_xmote gl ret w =
    let state = out_state ret in
    let t = retarget (state_change gl state w) state in
    if same state t.gl_target then unlock_glock (reached t state w) else missed t ret w

-- The branch of `run_queue` for the holders.
unfoldable pub serve_queue : Glock → World → Glock
serve_queue gl w =
    let (u, progress) = do_promote (if gl.flag_demote then demote_wake gl else gl) in
    let gh = find_first_waiter u.gl_holders in
    let v = with_target u (target_of gh u.gl_target) in
    if progress
    then unlock_glock u
    else do_xmote (if tries gh then v else do_error v 0) gh v.gl_target w

-- The branch of `run_queue` for a demotion.
unfoldable pub serve_demote : Glock → Bool → World → Glock
serve_demote gl nonblock w =
    let t =
      bug_on (same gl.gl_demote_state exclusive)
        (record gl { flag_demote_in_progress = true; gl_target = gl.gl_demote_state }) in
    if is_some_holder (find_first_holder gl.gl_holders)
    then unlock_glock gl
    else if nonblock
    then queue_work (hold_glock (unlock_glock gl))
    else do_xmote t none t.gl_target w

unfoldable pub run_queue : Glock → Bool → World → Glock
run_queue gl nonblock w =
    let t = bug_on gl.flag_demote_in_progress (record gl { flag_lock = true }) in
    if gl.flag_lock
    then gl
    else if gl.flag_demote && not (same gl.gl_demote_state gl.gl_state)
    then serve_demote t nonblock w
    else serve_queue t w
