-- ===== src/Glock/Requests.antt =====
-- What gfs2 asks of dlm: fs/gfs2/lock_dlm.c 190-294 and fs/gfs2/glock.c 699-704.
use lockify.Base.{
  ℕ, ◌≡◌, refl, ap, ◌∙◌, Bool, true, false, not, ◌&&◌, ◌||◌, List, Option, none, some,
  if◌then◌else◌, arith,
}
use lockify.Modes.{Mode, quecvt_compat}
use lockify.State.Flags.{LkFlags}
use lockify.Args.{
  natural, IntMode, Lksb, is_null, LockArgs, set_lock_args, valid_mode, flags_refused, lksb_refused,
}
use lockify.Glock.{LmState, unlocked, exclusive, deferred, shared, same}
use lockify.Glock.Machine.{note_request}
use lockify.Glock.Dlm.{has_block, DlmGlock, GfsFlags, make_mode, lock_mode, make_flags, gdlm_lock}

lock_mode-valid_mode : (st : LmState) → valid_mode (natural (lock_mode st)) ≡ some (make_mode st)
unfolding valid_mode lock_mode make_mode
lock_mode-valid_mode unlocked = refl
lock_mode-valid_mode exclusive = refl
lock_mode-valid_mode deferred = refl
lock_mode-valid_mode shared = refl

-- A conversion that may block goes where the convert queue may be jumped.
blocking-quecvt_compat :
    (st req : LmState)
    → not (same st req) && not (same req unlocked) && not (same st exclusive) ≡ true
    → quecvt_compat (make_mode st) (make_mode req) ≡ true
unfolding quecvt_compat make_mode
blocking-quecvt_compat unlocked exclusive h = refl
blocking-quecvt_compat unlocked deferred h = refl
blocking-quecvt_compat unlocked shared h = refl
blocking-quecvt_compat deferred exclusive h = refl
blocking-quecvt_compat deferred shared h = refl
blocking-quecvt_compat shared exclusive h = refl
blocking-quecvt_compat shared deferred h = refl
blocking-quecvt_compat _ _ h = absurd (ground (arith, h))

block-asked : (o : Option (List ℕ)) → has_block o && is_null o ≡ false
block-asked none = refl
block-asked (some b) = refl

make_flags-accepted :
    (d : DlmGlock) (g : GfsFlags) (req : LmState) (m : Mode)
    → (flags_refused (make_flags d g req) m 24
        || not true
        || lksb_refused (make_flags d g req) d.lksb)
      ≡ false
unfolding flags_refused lksb_refused make_flags
make_flags-accepted d g req m = ground (arith, block-asked d.lksb.sb_lvbptr)

set_lock_args-accepted :
    (mode : IntMode) (m : Mode) (sb : Lksb) (f : LkFlags) (n astparam : ℕ) (bast : Bool)
    → valid_mode mode ≡ some m
    → (flags_refused f m n || not true || lksb_refused f sb) ≡ false
    → set_lock_args mode (some sb) f n true astparam bast
      ≡ some (record { flags = f; astparam = astparam; bast = bast; mode = m; lksb = sb })
unfolding set_lock_args
set_lock_args-accepted mode m sb f n astparam bast v r =
    ap
      (λ (o : Option Mode). elim o as (λ _. Option LockArgs) [
        | none ↦ none
        | some m ↦
            if flags_refused f m n || not true || lksb_refused f sb
            then none
            else some (record { flags = f; astparam = astparam; bast = bast; mode = m; lksb = sb })
      ])
      v
    ∙ ap
        (λ (b : Bool).
          if b
          then none
          else some (record { flags = f; astparam = astparam; bast = bast; mode = m; lksb = sb }))
        r

-- The glock as `do_xmote` leaves it before it asks.
abbrev pub requested : DlmGlock → LmState → GfsFlags → DlmGlock
requested d req g = record d { glock = note_request d.glock req (g.try || g.try_1cb) }

requested-quecvt :
    (d : DlmGlock) (req : LmState) (g : GfsFlags)
    → same d.glock.gl_state req ≡ false
    → (not (make_flags (requested d req g) g req).quecvt
        || quecvt_compat (make_mode d.glock.gl_state) (make_mode req))
      ≡ true
unfolding make_flags note_request
requested-quecvt d req g h = ground (arith, h, blocking-quecvt_compat d.glock.gl_state req)

-- If a glock is to go to a state that it is not in, the call of dlm_lock that gdlm_lock makes
-- after do_xmote has noted the request, whatever its flags, passes the checks of set_lock_args,
-- with the mode of that state and the flags of make_flags; and if QUECVT is among them, the
-- conversion from the mode of the glock's state is one that QUECVT allows.
pub gdlm_lock-accepted :
    (d : DlmGlock) (req : LmState) (g : GfsFlags) (gl : ℕ)
    → same d.glock.gl_state req ≡ false
    → let f = make_flags (requested d req g) g req in
      gdlm_lock (requested d req g) req g gl
        ≡ some
            (record { flags = f; astparam = gl; bast = true; mode = make_mode req; lksb = d.lksb })
      × (not f.quecvt || quecvt_compat (make_mode d.glock.gl_state) (make_mode req)) ≡ true
unfolding gdlm_lock
gdlm_lock-accepted d req g gl h = (
  set_lock_args-accepted (natural (lock_mode req)) (make_mode req) d.lksb
      (make_flags (requested d req g) g req) 24 gl true (lock_mode-valid_mode req)
      (make_flags-accepted (requested d req g) g req (make_mode req)),
  requested-quecvt d req g h,
)
