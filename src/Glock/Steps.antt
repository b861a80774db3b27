-- ===== src/Glock/Steps.antt =====
-- What the state machine of a glock keeps: fs/gfs2/glock.c 384-402, 474-545, 571-649 and 669-858.
use lockify.Base.{
  ℕ, ◌≡◌, refl, Bool, true, false, not, ◌&&◌, ◌||◌, List, [], ◌∷◌, Option, none, some,
  if◌then◌else◌, arith,
}
use lockify.Glock.{LmState, Holder, Glock, World}
use lockify.Glock.Promote.{
  find_first_holder, promote, blocked_at_head, do_error, do_promote, state_change,
}
use lockify.Glock.Machine.{unlock_glock, handle_callback}
use lockify.Glock.Good.{
  all_wait, exact_states, in_order, all_wait-in_order, promote-in_order, promote-exact_states,
  kept-all_wait, kept-in_order, kept-exact_states,
}

abbrev pub is_asked : Option LmState → Bool
is_asked none = false
is_asked (some state) = true

-- Nothing is expected of the lock manager, and none of its answers is left to handle.
abbrev pub is_quiet : Glock → Bool
is_quiet gl = not (is_asked gl.asked) && not gl.flag_reply_pending && not gl.flag_frozen

-- At most one of these three is so.
abbrev at_most_one : Bool → Bool → Bool → Bool
at_most_one a b c = (not a || (not b && not c)) && (not b || not c)

-- The holders are in order.
abbrev pub is_ordered : Glock → Bool
is_ordered gl = exact_states gl.gl_holders && in_order gl.gl_state gl.gl_holders

-- A step has the glock for itself: nobody holds it.
abbrev pub is_served : Glock → Bool
is_served gl = all_wait gl.gl_holders && exact_states gl.gl_holders && gl.flag_lock && is_quiet gl

-- Between two steps: while GLF_LOCK is set nobody holds the glock, and only then something is
-- expected of the lock manager.
abbrev pub is_safe : Glock → Bool
is_safe gl =
    is_ordered gl
    && (not gl.flag_lock || all_wait gl.gl_holders)
    && (gl.flag_lock || is_quiet gl)
    && at_most_one (is_asked gl.asked) gl.flag_reply_pending gl.flag_frozen

-- A step may let go of the glock.
abbrev pub is_done : Glock → Bool
is_done gl = is_ordered gl && is_quiet gl

pub choose-holds :
    (p : Glock → Bool) (x y : Glock) (b : Bool)
    → (b ≡ true → p x ≡ true)
    → (b ≡ false → p y ≡ true)
    → p (if b then x else y) ≡ true
choose-holds p x y true f g = f refl
choose-holds p x y false f g = g refl

pub do_error-is_served :
    (gl : Glock) (n : ℕ) → is_served gl ≡ true → is_served (do_error gl n) ≡ true
unfolding do_error
do_error-is_served gl n h =
    ground (arith, h, kept-all_wait n gl.gl_holders, kept-exact_states n gl.gl_holders)

pub do_error-is_ordered :
    (gl : Glock) (n : ℕ) → is_ordered gl ≡ true → is_ordered (do_error gl n) ≡ true
unfolding do_error
do_error-is_ordered gl n h =
    ground (arith, h, kept-in_order n gl.gl_state gl.gl_holders, kept-exact_states n gl.gl_holders)

pub do_promote-is_ordered :
    (gl : Glock) → is_ordered gl ≡ true → is_ordered (do_promote gl).0 ≡ true
unfolding do_promote do_error
do_promote-is_ordered gl h =
    let hs = gl.gl_holders in
    let p = promote gl.gl_state (find_first_holder hs) hs in
    ground (
      arith,
      h,
      promote-in_order gl.gl_state hs,
      promote-exact_states gl.gl_state (find_first_holder hs) hs,
      kept-in_order 0 gl.gl_state p.0,
      kept-exact_states 0 p.0,
    )

pub blocked-all_wait :
    (st : LmState) (hs : List Holder)
    → in_order st hs ≡ true
    → blocked_at_head st hs ≡ true
    → all_wait hs ≡ true
unfolding in_order all_wait
blocked-all_wait st [] h b = refl
blocked-all_wait st (x ∷ hs) h b = ground (arith, h, b)

-- Without progress nobody holds the glock.
pub do_promote-all_wait :
    (gl : Glock)
    → is_ordered gl ≡ true
    → (do_promote gl).1 ≡ false
    → all_wait (do_promote gl).0.gl_holders ≡ true
unfolding do_promote
do_promote-all_wait gl h p = ground (arith, h, p, blocked-all_wait gl.gl_state gl.gl_holders)

pub do_promote-is_quiet : (gl : Glock) → is_quiet gl ≡ true → is_quiet (do_promote gl).0 ≡ true
unfolding do_promote do_error
do_promote-is_quiet gl q = ground (arith, q)

pub do_promote-flag_lock : (gl : Glock) → (do_promote gl).0.flag_lock ≡ gl.flag_lock
unfolding do_promote do_error
do_promote-flag_lock gl = ground (arith)

-- A step that goes on without progress has the glock for itself.
pub do_promote-is_served :
    (gl : Glock)
    → is_ordered gl ≡ true
    → is_quiet gl ≡ true
    → gl.flag_lock ≡ true
    → (do_promote gl).1 ≡ false
    → is_served (do_promote gl).0 ≡ true
do_promote-is_served gl h q l p = ground (
  arith,
  do_promote-all_wait gl h p,
  do_promote-is_ordered gl h,
  do_promote-is_quiet gl q,
  do_promote-flag_lock gl,
  l,
)

pub is_served-is_ordered : (gl : Glock) → is_served gl ≡ true → is_ordered gl ≡ true
is_served-is_ordered gl h = ground (arith, h, all_wait-in_order gl.gl_state gl.gl_holders)

pub unlock_glock-is_safe : (gl : Glock) → is_done gl ≡ true → is_safe (unlock_glock gl) ≡ true
unlock_glock-is_safe gl h = ground (arith, h)

pub is_served-is_done : (gl : Glock) → is_served gl ≡ true → is_done gl ≡ true
is_served-is_done gl h = ground (arith, h, is_served-is_ordered gl h)

-- With nobody holding the glock, the lock manager may be asked.
pub asked-is_safe :
    (gl : Glock) (st : LmState)
    → is_served gl ≡ true
    → is_safe (record gl { asked = some st }) ≡ true
asked-is_safe gl st h = ground (arith, h, is_served-is_ordered gl h)

pub is_served-is_safe : (gl : Glock) → is_served gl ≡ true → is_safe gl ≡ true
is_served-is_safe gl h = ground (arith, h, is_served-is_ordered gl h)

pub state_change-is_served :
    (gl : Glock) (st : LmState) (w : World)
    → is_served gl ≡ true
    → is_served (state_change gl st w) ≡ true
unfolding state_change
state_change-is_served gl st w h = ground (arith, h)

pub handle_callback-is_served :
    (gl : Glock) (st : LmState) (d : Bool)
    → is_served gl ≡ true
    → is_served (handle_callback gl st d) ≡ true
unfolding handle_callback
handle_callback-is_served gl st d h = ground (arith, h)

pub do_promote-is_done : (gl : Glock) → is_done gl ≡ true → is_done (do_promote gl).0 ≡ true
do_promote-is_done gl h = ground (arith, h, do_promote-is_ordered gl, do_promote-is_quiet gl)
