-- ===== src/Glock/Finish.antt =====
-- The state machine keeps the holders in order: fs/gfs2/glock.c 571-649 and 815-858.
use lockify.Base.{
  ℕ, ◌≡◌, refl, Bool, true, false, not, ◌&&◌, ◌||◌, List, [], ◌∷◌, Option, none, if◌then◌else◌,
  arith,
}
use lockify.Glock.{
  LmState, out_state, is_canceled, is_error, unlocked, exclusive, same, bug_on, Holder, Glock,
  World,
}
use lockify.Glock.Promote.{
  demote_wake, queue_work, hold_glock, find_first_holder, find_first_waiter, do_error, do_promote,
  state_change,
}
use lockify.Glock.Machine.{
  tries, target_of, with_target, is_some_holder, reached, unlock_glock, do_xmote, waiter_to_tail,
  wake_waiter, try_next, try_again, missed, retarget, finish_xmote, serve_queue, serve_demote,
  run_queue,
}
use lockify.Glock.Good.{all_wait, in_order}
use lockify.Glock.Moves.{
  waiter_to_tail-all_wait, waiter_to_tail-exact_states, wake_waiter-all_wait,
  wake_waiter-exact_states,
}
use lockify.Glock.Steps.{
  choose-holds, do_error-is_served, do_promote-is_done, do_promote-is_served, is_done, is_safe,
  is_served, is_served-is_done, state_change-is_served, unlock_glock-is_safe,
}
use lockify.Glock.Xmote.{reached-is_done, queue_work-is_safe, do_xmote-is_safe, try_again-is_safe}

-- What a step does with the holders first: some may be granted, and then it is done.
promote_or-is_safe :
    (gl : Glock) (next : Glock)
    → is_done gl ≡ true
    → gl.flag_lock ≡ true
    → (is_served (do_promote gl).0 ≡ true → is_safe next ≡ true)
    → is_safe (if (do_promote gl).1 then unlock_glock (do_promote gl).0 else next) ≡ true
promote_or-is_safe gl next h l f =
    choose-holds is_safe (unlock_glock (do_promote gl).0) next (do_promote gl).1
      (λ e. unlock_glock-is_safe (do_promote gl).0 (do_promote-is_done gl h))
      (λ e. f (do_promote-is_served gl (ground (arith, h)) (ground (arith, h)) l e))

try_next-is_safe : (gl : Glock) (w : World) → is_served gl ≡ true → is_safe (try_next gl w) ≡ true
unfolding try_next
try_next-is_safe gl w h =
    let t = record gl { gl_holders = waiter_to_tail gl.gl_holders } in
    let gh = find_first_waiter t.gl_holders in
    let u = with_target t (target_of gh t.gl_target) in
    let v = (do_promote u).0 in
    promote_or-is_safe u (do_xmote v gh v.gl_target w) (is_served-is_done u served)
      (ground (arith, h)) (λ s. do_xmote-is_safe v gh v.gl_target w s)
  where
    served : is_served (record gl { gl_holders = waiter_to_tail gl.gl_holders }) ≡ true
    served =
        ground (
          arith,
          h,
          waiter_to_tail-all_wait gl.gl_holders,
          waiter_to_tail-exact_states gl.gl_holders,
        )

missed-is_safe :
    (gl : Glock) (n : ℕ) (w : World) → is_served gl ≡ true → is_safe (missed gl n w) ≡ true
unfolding missed
missed-is_safe gl n w h =
    let u = with_target t t.gl_state in
    let again = try_again t gh (out_state n) w in
    let failed = unlock_glock (do_error u n) in
    choose-holds is_safe
      (if is_canceled n then try_next t w else if is_error n || tries gh then failed else again)
      again (is_some_holder gh && not t.flag_demote_in_progress)
      (λ e.
        choose-holds is_safe (try_next t w) (if is_error n || tries gh then failed else again)
          (is_canceled n) (λ e. try_next-is_safe t w served)
          (λ e.
            choose-holds is_safe failed again (is_error n || tries gh)
              (λ e.
                unlock_glock-is_safe (do_error u n)
                  (is_served-is_done (do_error u n) (do_error-is_served u n served)))
              (λ e. try_again-is_safe t gh (out_state n) w served)))
      (λ e. try_again-is_safe t gh (out_state n) w served)
  where
    gh : Option Holder
    gh = find_first_waiter gl.gl_holders

    woken : Glock
    woken = record gl { gl_holders = wake_waiter gl.gl_holders }

    t : Glock
    t = if is_canceled n then woken else gl

    woken-is_served : is_served woken ≡ true
    woken-is_served =
        ground
          (arith, h, wake_waiter-all_wait gl.gl_holders, wake_waiter-exact_states gl.gl_holders)

    served : is_served t ≡ true
    served = choose-holds is_served woken gl (is_canceled n) (λ e. woken-is_served) (λ e. h)

retarget-is_served :
    (gl : Glock) (st : LmState) → is_served gl ≡ true → is_served (retarget gl st) ≡ true
unfolding retarget
retarget-is_served gl st h =
    choose-holds is_served (with_target gl unlocked) gl
      (gl.flag_demote_in_progress && not (same st unlocked) && same gl.gl_demote_state unlocked)
      (λ e. h) (λ e. h)

-- The lock manager has answered, whatever it says.
pub finish_xmote-is_safe :
    (gl : Glock) (n : ℕ) (w : World) → is_served gl ≡ true → is_safe (finish_xmote gl n w) ≡ true
unfolding finish_xmote
finish_xmote-is_safe gl n w h =
    let st = out_state n in
    let t = retarget (state_change gl st w) st in
    let served = retarget-is_served (state_change gl st w) st (state_change-is_served gl st w h) in
    choose-holds is_safe (unlock_glock (reached t st w)) (missed t n w) (same st t.gl_target)
      (λ e. unlock_glock-is_safe (reached t st w) (reached-is_done t st w served))
      (λ e. missed-is_safe t n w served)

serve_queue-is_safe :
    (gl : Glock) (w : World)
    → is_done gl ≡ true
    → gl.flag_lock ≡ true
    → is_safe (serve_queue gl w) ≡ true
unfolding serve_queue
serve_queue-is_safe gl w h l =
    let v = with_target u (target_of gh u.gl_target) in
    promote_or-is_safe t (do_xmote (if tries gh then v else do_error v 0) gh v.gl_target w) done
      locked
      (λ s. do_xmote-is_safe (if tries gh then v else do_error v 0) gh v.gl_target w (
        choose-holds is_served v (do_error v 0) (tries gh) (λ e. s)
          (λ e. do_error-is_served v 0 s)))
  where
    t : Glock
    t = if gl.flag_demote then demote_wake gl else gl

    u : Glock
    u = (do_promote t).0

    gh : Option Holder
    gh = find_first_waiter u.gl_holders

    done : is_done t ≡ true
    done = choose-holds is_done (demote_wake gl) gl gl.flag_demote (λ e. h) (λ e. h)

    locked : t.flag_lock ≡ true
    locked = choose-holds (λ x. x.flag_lock) (demote_wake gl) gl gl.flag_demote (λ e. l) (λ e. l)

-- Nobody is first, so nobody holds the glock.
pub none-all_wait :
    (st : LmState) (hs : List Holder)
    → in_order st hs ≡ true
    → is_some_holder (find_first_holder hs) ≡ false
    → all_wait hs ≡ true
unfolding in_order all_wait find_first_holder
none-all_wait st [] h e = refl
none-all_wait st (x ∷ hs) h e = ground (arith, h, e)

serve_demote-is_safe :
    (gl : Glock) (b : Bool) (w : World)
    → is_done gl ≡ true
    → gl.flag_lock ≡ true
    → is_safe (serve_demote gl b w) ≡ true
unfolding serve_demote
serve_demote-is_safe gl b w h l =
    let t =
      bug_on (same gl.gl_demote_state exclusive)
        (record gl { flag_demote_in_progress = true; gl_target = gl.gl_demote_state }) in
    let later = queue_work (hold_glock (unlock_glock gl)) in
    let now = do_xmote t none t.gl_target w in
    choose-holds is_safe (unlock_glock gl) (if b then later else now)
      (is_some_holder (find_first_holder gl.gl_holders)) (λ e. unlock_glock-is_safe gl h)
      (λ e.
        choose-holds is_safe later now b
          (λ e. queue_work-is_safe (hold_glock (unlock_glock gl)) (unlock_glock-is_safe gl h))
          (λ f.
            do_xmote-is_safe t none t.gl_target w
              (ground (arith, h, l, none-all_wait gl.gl_state gl.gl_holders, e))))

-- The queue of the holders, or a demotion, is served if no other step is at it.
pub run_queue-is_safe :
    (gl : Glock) (b : Bool) (w : World) → is_safe gl ≡ true → is_safe (run_queue gl b w) ≡ true
unfolding run_queue
run_queue-is_safe gl b w h =
    let t = bug_on gl.flag_demote_in_progress (record gl { flag_lock = true }) in
    let demote = gl.flag_demote && not (same gl.gl_demote_state gl.gl_state) in
    choose-holds is_safe gl (if demote then serve_demote t b w else serve_queue t w) gl.flag_lock
      (λ e. h)
      (λ e.
        choose-holds is_safe (serve_demote t b w) (serve_queue t w) demote
          (λ f. serve_demote-is_safe t b w (ground (arith, h, e)) refl)
          (λ f. serve_queue-is_safe t w (ground (arith, h, e)) refl))
