-- ===== src/Glock/Dlm.antt =====
-- The lock manager of a glock is dlm: fs/gfs2/lock_dlm.c 119-294.
use lockify.Base.{
  ℕ, ◌+◌, Bool, true, false, not, ◌&&◌, ◌||◌, List, Option, none, some, if◌then◌else◌, ◌==◌,
}
use lockify.Modes.{Mode, nl, cw, pr, ex}
use lockify.State.Flags.{LkFlags, no_flags}
use lockify.Args.{natural, Lksb, LockArgs, set_lock_args}
use lockify.Glock.{LmState, unlocked, exclusive, deferred, shared, number, Glock, World}
use lockify.Glock.Queue.{glock_complete, glock_cb}

-- The parts of `struct gfs2_glock` that lock_dlm.c uses.
pub record DlmGlock : Type 0 where
  pub glock : Glock
  pub initial : Bool  -- GLF_INITIAL
  pub lksb : Lksb

-- The flags of the request that `make_flags` reads.
pub record GfsFlags : Type 0 where
  pub try : Bool
  pub try_1cb : Bool
  pub any : Bool
  pub notify : Bool

unfoldable pub make_mode : LmState → Mode
make_mode unlocked = nl
make_mode exclusive = ex
make_mode deferred = cw
make_mode shared = pr

-- DLM_LOCK_NL, DLM_LOCK_CW, DLM_LOCK_PR and DLM_LOCK_EX, as `dlm_lock` takes them.
unfoldable pub lock_mode : LmState → ℕ
lock_mode unlocked = 0
lock_mode exclusive = 5
lock_mode deferred = 2
lock_mode shared = 3

abbrev pub has_block : Option (List ℕ) → Bool
has_block none = false
has_block (some b) = true

abbrev is_shared : LmState → Bool
is_shared shared = true
is_shared _ = false

abbrev is_deferred : LmState → Bool
is_deferred deferred = true
is_deferred _ = false

-- With LM_FLAG_ANY it BUGs for the other two states.
unfoldable pub make_flags : DlmGlock → GfsFlags → LmState → LkFlags
make_flags d g req = record no_flags {
  valblk = has_block d.lksb.sb_lvbptr;
  noqueue = g.try || g.try_1cb;
  noqueuebast = g.try_1cb;
  altcw = g.any && is_shared req;
  altpr = g.any && is_deferred req;
  convert = not (d.lksb.sb_lkid == 0);
  quecvt = not (d.lksb.sb_lkid == 0) && d.glock.flag_blocking;
  notify = g.notify;
}

-- The arguments of the call of `dlm_lock` in `gdlm_lock`, as the checks of `dlm_lock` see them; `gl`
-- is the address of the glock, and a name has GDLM_STRNAME_BYTES - 1 bytes.
unfoldable pub gdlm_lock : DlmGlock → LmState → GfsFlags → ℕ → Option LockArgs
gdlm_lock d req g gl =
    set_lock_args (natural (lock_mode req)) (some d.lksb) (make_flags d g req) 24 true gl true

-- `sb_status`
pub data SbStatus : Type 0 where
  ok : SbStatus
  eunlock : SbStatus
  ecancel : SbStatus
  eagain : SbStatus
  edeadlk : SbStatus
  etimedout : SbStatus

-- DLM_SBF_ALTMODE; for the other two states it BUGs.
unfoldable pub alt_state : Bool → LmState → LmState
alt_state true shared = deferred
alt_state true deferred = shared
alt_state _ state = state

unfoldable pub ast_ret : Glock → SbStatus → Bool → ℕ
ast_ret gl SbStatus.ok altmode = number (alt_state altmode gl.gl_req)
ast_ret gl SbStatus.ecancel altmode = number gl.gl_state + 8
ast_ret gl SbStatus.etimedout altmode = number gl.gl_state + 4
ast_ret gl _ altmode = number gl.gl_state

-- Without a lock of this glock ever granted, a failed request leaves no lock.
abbrev failed_lkid : DlmGlock → Lksb
failed_lkid d = if d.initial then d.lksb else record d.lksb { sb_lkid = 0 }

-- `none`: the glock is freed. The times, and a value block that is not valid, are left out.
unfoldable pub gdlm_ast : DlmGlock → SbStatus → Bool → World → Option DlmGlock
gdlm_ast d status altmode w =
    let completed = glock_complete d.glock (ast_ret d.glock status altmode) w in
    elim status [
      | eunlock ↦ none
      | ok ↦ some (record d { glock = completed; initial = true })
      | _ ↦ some (record d { glock = completed; lksb = failed_lkid d })
    ]

-- The state that a blocking callback asks for; it BUGs for the modes that no glock asks for.
unfoldable pub bast_state : Mode → Option LmState
bast_state ex = some unlocked
bast_state cw = some deferred
bast_state pr = some shared
bast_state _ = none

unfoldable pub gdlm_bast : DlmGlock → Mode → World → DlmGlock
gdlm_bast d mode w = elim (bast_state mode) [
  | none ↦ d
  | some state ↦ record d { glock = glock_cb d.glock state w }
]
