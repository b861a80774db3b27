-- ===== src/Glock/Change.antt =====
-- When the state of a glock may change: fs/gfs2/glock.c 474-500, 815-858 and 1052-1095.
use lockify.Base.{
  ◌≡◌, refl, ◌∙◌, Bool, true, false, not, ◌&&◌, List, [], ◌∷◌, ◌++◌, Option, none, if◌then◌else◌,
  ltb, ◌-◌, arith,
}
use lockify.Glock.{LmState, exclusive, same, Holder, Glock, World, bug_on}
use lockify.Glock.Promote.{
  may_grant, find_first_holder, find_first_waiter, blocked_at_head, do_promote, do_error, promote,
  demote_wake, set_demote, queue_work, hold_glock,
}
use lockify.Glock.Machine.{
  unlock_glock, do_xmote, with_target, target_of, tries, is_some_holder, serve_queue, serve_demote,
  run_queue, handle_callback,
}
use lockify.Glock.Queue.{recursive, some_wait, give_up, add_to_queue, unfreeze}
use lockify.Glock.Good.{all_wait, in_order}
use lockify.Glock.Steps.{choose-holds, blocked-all_wait}
use lockify.Glock.Finish.{none-all_wait}

pub choose-gl_state :
    (st : LmState) (x y : Glock) (b : Bool)
    → (b ≡ true → x.gl_state ≡ st)
    → (b ≡ false → y.gl_state ≡ st)
    → (if b then x else y).gl_state ≡ st
choose-gl_state st x y true f g = f refl
choose-gl_state st x y false f g = g refl

do_promote-gl_state : (gl : Glock) → (do_promote gl).0.gl_state ≡ gl.gl_state
unfolding do_promote do_error
do_promote-gl_state gl =
    by_head (blocked_at_head gl.gl_state gl.gl_holders)
      (promote gl.gl_state (find_first_holder gl.gl_holders) gl.gl_holders).1
  where
    t : Glock
    t = record gl {
      gl_holders = (promote gl.gl_state (find_first_holder gl.gl_holders) gl.gl_holders).0;
    }

    by_head :
        (b c : Bool)
        → (let r : Glock × Bool =
              if b then (gl, false) else (if c then do_error t 0 else t, true) in
            r.0.gl_state)
          ≡ gl.gl_state
    by_head true c = refl
    by_head false true = refl
    by_head false false = refl

-- With a holder there is progress.
do_promote-progress :
    (gl : Glock)
    → in_order gl.gl_state gl.gl_holders ≡ true
    → all_wait gl.gl_holders ≡ false
    → (do_promote gl).1 ≡ true
unfolding do_promote
do_promote-progress gl o h = ground (arith, o, h, blocked-all_wait gl.gl_state gl.gl_holders)

serve_queue-gl_state :
    (gl : Glock) (w : World)
    → in_order gl.gl_state gl.gl_holders ≡ true
    → all_wait gl.gl_holders ≡ false
    → (serve_queue gl w).gl_state ≡ gl.gl_state
unfolding serve_queue
serve_queue-gl_state gl w o h =
    choose-gl_state gl.gl_state (unlock_glock u)
      (do_xmote (if tries gh then v else do_error v 0) gh v.gl_target w) (do_promote t).1
      (λ e. do_promote-gl_state t ∙ kept) (λ e. absurd (ground (arith, e, progress)))
  where
    t : Glock
    t = if gl.flag_demote then demote_wake gl else gl

    u : Glock
    u = (do_promote t).0

    gh : Option Holder
    gh = find_first_waiter u.gl_holders

    v : Glock
    v = with_target u (target_of gh u.gl_target)

    kept : t.gl_state ≡ gl.gl_state
    kept = choose-gl_state gl.gl_state (demote_wake gl) gl gl.flag_demote (λ e. refl) (λ e. refl)

    progress : (do_promote t).1 ≡ true
    progress =
        do_promote-progress t
          (choose-holds (λ x. in_order x.gl_state x.gl_holders) (demote_wake gl) gl gl.flag_demote
            (λ e. o) (λ e. o))
          (ground (
            arith,
            h,
            choose-holds (λ x. not (all_wait x.gl_holders)) (demote_wake gl) gl gl.flag_demote
                (λ e. ground (arith, h)) (λ e. ground (arith, h)),
          ))

serve_demote-gl_state :
    (gl : Glock) (b : Bool) (w : World)
    → in_order gl.gl_state gl.gl_holders ≡ true
    → all_wait gl.gl_holders ≡ false
    → (serve_demote gl b w).gl_state ≡ gl.gl_state
unfolding serve_demote
serve_demote-gl_state gl b w o h =
    let t =
      bug_on (same gl.gl_demote_state exclusive)
        (record gl { flag_demote_in_progress = true; gl_target = gl.gl_demote_state }) in
    choose-gl_state gl.gl_state (unlock_glock gl)
      (if b then queue_work (hold_glock (unlock_glock gl)) else do_xmote t none t.gl_target w)
      (is_some_holder (find_first_holder gl.gl_holders)) (λ e. refl)
      (λ e. absurd (ground (arith, h, none-all_wait gl.gl_state gl.gl_holders o e)))

pub run_queue-gl_state :
    (gl : Glock) (b : Bool) (w : World)
    → in_order gl.gl_state gl.gl_holders ≡ true
    → all_wait gl.gl_holders ≡ false
    → (run_queue gl b w).gl_state ≡ gl.gl_state
unfolding run_queue
run_queue-gl_state gl b w o h =
    let t = bug_on gl.flag_demote_in_progress (record gl { flag_lock = true }) in
    let demote = gl.flag_demote && not (same gl.gl_demote_state gl.gl_state) in
    choose-gl_state gl.gl_state gl (if demote then serve_demote t b w else serve_queue t w)
      gl.flag_lock (λ e. refl)
      (λ e.
        choose-gl_state gl.gl_state (serve_demote t b w) (serve_queue t w) demote
          (λ f. serve_demote-gl_state t b w o h) (λ f. serve_queue-gl_state t w o h))

pub queue_work-gl_state : (gl : Glock) → (queue_work gl).gl_state ≡ gl.gl_state
queue_work-gl_state gl =
    choose-gl_state gl.gl_state (bug_on (ltb gl.count 2) (record gl { count = gl.count - 1 }))
      (record gl { queued = true }) gl.queued (λ e. refl) (λ e. refl)

pub handle_callback-gl_state :
    (gl : Glock) (st : LmState) (d : Bool) → (handle_callback gl st d).gl_state ≡ gl.gl_state
unfolding handle_callback
handle_callback-gl_state gl st d =
    choose-gl_state gl.gl_state (record gl { flag_pending_demote = true }) (set_demote gl) d
      (λ e. refl) (λ e. refl)

-- Some holder has the glock.
abbrev pub is_held : Glock → Bool
is_held gl = not (all_wait gl.gl_holders)

pub queue_work-is_held : (gl : Glock) → is_held gl ≡ true → is_held (queue_work gl) ≡ true
queue_work-is_held gl h =
    choose-holds is_held (bug_on (ltb gl.count 2) (record gl { count = gl.count - 1 }))
      (record gl { queued = true }) gl.queued (λ e. h) (λ e. h)

last-not_wait :
    (hs : List Holder) (gh : Holder)
    → not (all_wait hs) ≡ true
    → not (all_wait (hs ++ gh ∷ [])) ≡ true
unfolding all_wait
last-not_wait [] gh h = absurd (ground (arith, h))
last-not_wait (x ∷ hs) gh h = ground (arith, h, last-not_wait hs gh)

pub add_to_queue-kept :
    (gl : Glock) (gh : Holder) (w : World)
    → is_held gl ≡ true
    → (add_to_queue gl gh w).gl_state ≡ gl.gl_state × is_held (add_to_queue gl gh w) ≡ true
unfolding add_to_queue
add_to_queue-kept gl gh w h = (
  choose-gl_state gl.gl_state (give_up t new) (if trapped then bug_on true t else rest) now
      (λ e. refl)
      (λ e.
        choose-gl_state gl.gl_state (bug_on true t) rest trapped (λ e. refl)
          (λ e. choose-gl_state gl.gl_state (give_up t new) more futile (λ e. refl) (λ e. refl))),
  choose-holds is_held (give_up t new) (if trapped then bug_on true t else rest) now (λ e. h)
      (λ e.
        choose-holds is_held (bug_on true t) rest trapped (λ e. h)
          (λ e.
            choose-holds is_held (give_up t new) more futile (λ e. h)
              (λ e. last-not_wait gl.gl_holders new h))),
)
  where
    new : Holder
    new = record gh { wait = true }

    t : Glock
    t = bug_on gh.wait gl

    more : Glock
    more = record t { gl_holders = t.gl_holders ++ new ∷ [] }

    now : Bool
    now = gh.try && gl.flag_invalidate_in_progress

    futile : Bool
    futile =
        (gh.try && gl.flag_lock && not (may_grant gl.gl_state (find_first_holder gl.gl_holders) gh))
        && some_wait gl.gl_holders

    trapped : Bool
    trapped = recursive w.flock gh gl.gl_holders

    rest : Glock
    rest = if futile then give_up t new else more

pub unfreeze-kept :
    (gl : Glock) (gh : Holder)
    → is_held gl ≡ true
    → (unfreeze gl gh).gl_state ≡ gl.gl_state × is_held (unfreeze gl gh) ≡ true
unfolding unfreeze
unfreeze-kept gl gh h =
    let t = hold_glock (record gl { flag_frozen = false; flag_reply_pending = true }) in
    (
      choose-gl_state gl.gl_state (queue_work t) gl (gh.noexp && gl.flag_frozen)
          (λ e. queue_work-gl_state t) (λ e. refl),
      choose-holds is_held (queue_work t) gl (gh.noexp && gl.flag_frozen)
          (λ e. queue_work-is_held t h) (λ e. h),
    )
