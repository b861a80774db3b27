-- ===== src/Glock/Held.antt =====
-- A glock that is held keeps its state: fs/gfs2/glock.c 1052-1095, 1475-1642 and 1847-1926.
use lockify.Base.{
  ℕ, ◌≡◌, refl, ◌∙◌, Bool, true, false, not, ◌&&◌, none, if◌then◌else◌, ◌==◌, ◌%◌, arith,
}
use lockify.Glock.{
  LmState, unlocked, Holder, Glock, new_glock, World, GhError, no_error, eio,
  glock_blocked_by_withdraw,
}
use lockify.Glock.Promote.{set_demote, queue_work, hold_glock, demote_ok}
use lockify.Glock.Machine.{finish_xmote, run_queue, handle_callback}
use lockify.Glock.Queue.{
  add_to_queue, unfreeze, glock_nq, glock_dq, glock_cb, glock_complete, take_reply, demote_pending,
  demote_in_time, held_for, glock_work, remove_holder, needs_demote, has_holders, should_freeze,
}
use lockify.Glock.Change.{
  choose-gl_state, is_held, queue_work-gl_state, handle_callback-gl_state, add_to_queue-kept,
  unfreeze-kept, run_queue-gl_state,
}
use lockify.Glock.Events.{
  add_to_queue-is_safe, unfreeze-is_safe, take_reply-is_safe, demote_in_time-is_safe, is_new,
}
use lockify.Glock.Safety.{Reach, Reach-is_safe}
use lockify.Glock.Steps.{is_safe, choose-holds}
use lockify.Glock.Safety.{Step}

glock_nq-gl_state :
    (gl : Glock) (gh : Holder) (w : World)
    → is_new gh ≡ true
    → is_safe gl ≡ true
    → is_held gl ≡ true
    → (glock_nq gl gh w).0.gl_state ≡ gl.gl_state
unfolding glock_nq
glock_nq-gl_state gl gh w n h k = by_withdraw (glock_blocked_by_withdraw w && not gh.noexp)
  where
    new : Holder
    new = record gh { gh_error = no_error }

    t : Glock
    t = record gl { flag_lru = false }

    added : Glock
    added = add_to_queue t new w

    added-kept : added.gl_state ≡ gl.gl_state × is_held added ≡ true
    added-kept = add_to_queue-kept t new w k

    thawed-kept :
        (unfreeze added new).gl_state ≡ added.gl_state × is_held (unfreeze added new) ≡ true
    thawed-kept = unfreeze-kept added new added-kept.1

    thawed-is_safe : is_safe (unfreeze added new) ≡ true
    thawed-is_safe = unfreeze-is_safe added new (add_to_queue-is_safe t new w n h)

    by_withdraw :
        (b : Bool)
        → (let r : Glock × GhError =
              if b then (gl, eio) else (run_queue (unfreeze added new) true w, no_error) in
            r.0.gl_state)
          ≡ gl.gl_state
    by_withdraw true = refl
    by_withdraw false =
        run_queue-gl_state (unfreeze added new) true w (ground (arith, thawed-is_safe))
          (ground (arith, thawed-kept.1))
        ∙ thawed-kept.0
        ∙ added-kept.0

glock_dq-gl_state :
    (gl : Glock) (gh : Holder) (w : World) → (glock_dq gl gh w).gl_state ≡ gl.gl_state
unfolding glock_dq
glock_dq-gl_state gl gh w =
    choose-gl_state gl.gl_state v (queue_work (hold_glock v))
      (not (needs_demote u) && not (has_holders u.gl_holders)) (λ e. v-gl_state)
      (λ e. queue_work-gl_state (hold_glock v) ∙ v-gl_state)
  where
    t : Glock
    t = if gh.nocache then handle_callback gl unlocked false else gl

    u : Glock
    u = record t { gl_holders = remove_holder gh.gh t.gl_holders }

    v : Glock
    v = if not u.flag_lflush && demote_ok u w then record u { flag_lru = true } else u

    t-gl_state : t.gl_state ≡ gl.gl_state
    t-gl_state =
        choose-gl_state gl.gl_state (handle_callback gl unlocked false) gl gh.nocache
          (λ e. handle_callback-gl_state gl unlocked false) (λ e. refl)

    v-gl_state : v.gl_state ≡ gl.gl_state
    v-gl_state =
        choose-gl_state gl.gl_state (record u { flag_lru = true }) u
          (not u.flag_lflush && demote_ok u w) (λ e. t-gl_state) (λ e. t-gl_state)

glock_cb-gl_state :
    (gl : Glock) (st : LmState) (w : World) → (glock_cb gl st w).gl_state ≡ gl.gl_state
unfolding glock_cb
glock_cb-gl_state gl st w =
    let t = hold_glock gl in
    let delay =
      if has_holders t.gl_holders && w.inode
      then (if t.flag_reply_pending then t.gl_hold_time else held_for t w)
      else 0 in
    queue_work-gl_state (handle_callback t st (not (delay == 0)))
    ∙ handle_callback-gl_state t st (not (delay == 0))

glock_complete-gl_state :
    (gl : Glock) (n : ℕ) (w : World) → (glock_complete gl n w).gl_state ≡ gl.gl_state
unfolding glock_complete
glock_complete-gl_state gl n w =
    let t = record gl { gl_reply = n % 256; asked = none } in
    let u = hold_glock (record t { flag_reply_pending = true }) in
    choose-gl_state gl.gl_state (record t { flag_frozen = true }) (queue_work u)
      (w.block_locks && should_freeze t) (λ e. refl) (λ e. queue_work-gl_state u)

-- With a holder no answer is there to take.
take_reply-kept :
    (gl : Glock) (w : World)
    → is_safe gl ≡ true
    → is_held gl ≡ true
    → (take_reply gl w).gl_state ≡ gl.gl_state × is_held (take_reply gl w) ≡ true
unfolding take_reply
take_reply-kept gl w h k =
    let t = finish_xmote (record gl { flag_reply_pending = false }) gl.gl_reply w in
    (
      choose-gl_state gl.gl_state t gl gl.flag_reply_pending (λ e. absurd (ground (arith, h, k, e)))
          (λ e. refl),
      choose-holds is_held t gl gl.flag_reply_pending (λ e. absurd (ground (arith, h, k, e)))
          (λ e. k),
    )

demote_in_time-kept :
    (gl : Glock) (w : World)
    → is_held gl ≡ true
    → (demote_in_time gl w).gl_state ≡ gl.gl_state × is_held (demote_in_time gl w) ≡ true
unfolding demote_in_time
demote_in_time-kept gl w k =
    let t = set_demote (record gl { flag_pending_demote = false }) in
    let now = demote_pending gl && held_for gl w == 0 in
    (
      choose-gl_state gl.gl_state t gl now (λ e. refl) (λ e. refl),
      choose-holds is_held t gl now (λ e. k) (λ e. k),
    )

glock_work-gl_state :
    (gl : Glock) (v w : World)
    → is_safe gl ≡ true
    → is_held gl ≡ true
    → (glock_work gl v w).gl_state ≡ gl.gl_state
unfolding glock_work
glock_work-gl_state gl v w h k =
    choose-gl_state gl.gl_state (queue_work r) r delayed (λ e. queue_work-gl_state r ∙ r-gl_state)
      (λ e. r-gl_state)
  where
    a : Glock
    a = record gl { queued = false }

    t : Glock
    t = take_reply a v

    u : Glock
    u = demote_in_time t w

    t-kept : t.gl_state ≡ gl.gl_state × is_held t ≡ true
    t-kept = take_reply-kept a v h k

    u-kept : u.gl_state ≡ t.gl_state × is_held u ≡ true
    u-kept = demote_in_time-kept t w t-kept.1

    u-is_safe : is_safe u ≡ true
    u-is_safe = demote_in_time-is_safe t w (take_reply-is_safe a v h)

    delayed : Bool
    delayed = demote_pending t && not (held_for t w == 0)

    r : Glock
    r = run_queue u false w

    r-gl_state : r.gl_state ≡ gl.gl_state
    r-gl_state =
        run_queue-gl_state u false w (ground (arith, u-is_safe)) (ground (arith, u-kept.1))
        ∙ u-kept.0
        ∙ t-kept.0

Step-gl_state :
    {x y : Glock} → Step x y → is_safe x ≡ true → is_held x ≡ true → y.gl_state ≡ x.gl_state
Step-gl_state {x} (Step.nq gh w n) h k = glock_nq-gl_state x gh w n h k
Step-gl_state {x} (Step.dq gh w) h k = glock_dq-gl_state x gh w
Step-gl_state {x} (Step.cb st w) h k = glock_cb-gl_state x st w
Step-gl_state {x} (Step.complete n w a) h k = glock_complete-gl_state x n w
Step-gl_state {x} (Step.work v w) h k = glock_work-gl_state x v w h k

-- In any history from a new glock, where each new holder asks for one state without ANY and an
-- answer comes only to a question, a step on a glock that somebody holds leaves the state of
-- the glock as it is.
pub Reach-gl_state :
    (now hold : ℕ) {x y : Glock}
    → Reach (new_glock now hold) x
    → Step x y
    → is_held x ≡ true
    → y.gl_state ≡ x.gl_state
Reach-gl_state now hold r s k = Step-gl_state s (Reach-is_safe now hold r) k
