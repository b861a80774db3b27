-- ===== src/Glock.antt =====
-- The locks of gfs2, `struct gfs2_glock`, and their holders: fs/gfs2/incore.h 253-376, fs/gfs2/glock.h
-- 47-118 and fs/gfs2/glock.c 155-167 and 1190-1206.
pub mod Promote
pub mod Machine
pub mod Queue
pub mod Dlm
pub mod Requests
pub mod Replies
pub mod Good
pub mod Moves
pub mod Steps
pub mod Xmote
pub mod Finish
pub mod Events
pub mod Share
pub mod Safety
pub mod Change
pub mod Held
use lockify.Base.{
  ℕ, ◌+◌, ◌-◌, ◌/◌, ◌%◌, Bool, true, false, not, ◌&&◌, ◌||◌, List, [], ◌∷◌, ◌++◌, Option, none,
  some, if◌then◌else◌, ◌==◌, ltb,
}

-- LM_ST_UNLOCKED .. LM_ST_SHARED
pub data LmState : Type 0 where
  unlocked : LmState
  exclusive : LmState
  deferred : LmState
  shared : LmState

abbrev pub number : LmState → ℕ
number unlocked = 0
number exclusive = 1
number deferred = 2
number shared = 3

abbrev pub same : LmState → LmState → Bool
same a b = number a == number b

-- `ret & LM_OUT_ST_MASK`, `ret & LM_OUT_CANCELED` and `ret & LM_OUT_ERROR`
unfoldable pub out_state : ℕ → LmState
out_state ret =
    if ret % 4 == 0
    then unlocked
    else if ret % 4 == 1
    then exclusive
    else if ret % 4 == 2
    then deferred
    else shared

abbrev pub is_canceled : ℕ → Bool
is_canceled ret = ret / 8 % 2 == 1

abbrev pub is_error : ℕ → Bool
is_error ret = ret / 4 % 2 == 1

-- `gh_error`: 0, -EIO or GLR_TRYFAILED
pub data GhError : Type 0 where
  no_error : GhError
  eio : GhError
  try_failed : GhError

-- `struct gfs2_holder`. `gh` stands for its address; the flags are those that glock.c reads.
pub record Holder : Type 0 where
  pub gh : ℕ
  pub owner_pid : ℕ
  pub gh_state : LmState
  pub try : Bool  -- LM_FLAG_TRY or LM_FLAG_TRY_1CB
  pub noexp : Bool
  pub any : Bool
  pub notify : Bool
  pub node_scope : Bool
  pub async : Bool
  pub exact : Bool
  pub nopid : Bool
  pub nocache : Bool
  pub holder : Bool  -- gh_iflags, HIF_HOLDER
  pub wait : Bool  -- gh_iflags, HIF_WAIT
  pub gh_error : GhError

-- `struct gfs2_glock`; `flag_lock` is GLF_LOCK and so on. `asked` is the state that was asked of the
-- lock manager and not answered yet, `done` the holders that were taken off with an error.
pub record Glock : Type 0 where
  pub gl_state : LmState
  pub gl_target : LmState
  pub gl_demote_state : LmState
  pub gl_req : LmState
  pub gl_reply : ℕ
  pub flag_lock : Bool
  pub flag_demote : Bool
  pub flag_pending_demote : Bool
  pub flag_demote_in_progress : Bool
  pub flag_invalidate_in_progress : Bool
  pub flag_reply_pending : Bool
  pub flag_frozen : Bool
  pub flag_blocking : Bool
  pub flag_lru : Bool
  pub flag_lflush : Bool
  pub gl_hold_time : ℕ
  pub gl_tchange : ℕ
  pub gl_holders : List Holder
  pub count : ℕ  -- gl_lockref.count
  pub queued : Bool  -- gl_work is queued
  pub asked : Option LmState
  pub done : List Holder
  pub bug : Bool  -- GLOCK_BUG_ON

-- What `gfs2_glock_get` makes, with the time and GL_GLOCK_DFT_HOLD.
abbrev pub new_glock : ℕ → ℕ → Glock
new_glock jiffies dft_hold = record {
  gl_state = unlocked;
  gl_target = unlocked;
  gl_demote_state = exclusive;
  gl_req = unlocked;
  gl_reply = 0;
  flag_lock = false;
  flag_demote = false;
  flag_pending_demote = false;
  flag_demote_in_progress = false;
  flag_invalidate_in_progress = false;
  flag_reply_pending = false;
  flag_frozen = false;
  flag_blocking = false;
  flag_lru = false;
  flag_lflush = false;
  gl_hold_time = dft_hold;
  gl_tchange = jiffies;
  gl_holders = [];
  count = 1;
  queued = false;
  asked = none;
  done = [];
  bug = false;
}

-- What other code says while a function runs: the type of the glock and its operations, the state of
-- the file system, the time, and what the lock manager returns.
pub record World : Type 0 where
  pub withdrawn : Bool  -- gfs2_withdrawn as do_xmote starts
  pub withdrawn_meanwhile : Bool  -- other code withdraws while the spin lock is let go
  pub log_error : Bool  -- sd_log_error after the sync and the invalidate operation
  pub nondisk : Bool  -- GLOF_NONDISK
  pub own_journal : Bool  -- no journal, or the glock of this node's journal
  pub withdraw_recovery : Bool
  pub system_glock : Bool
  pub has_inval : Bool
  pub sync_fails : Bool
  pub xmote_bh : ℕ  -- what go_xmote_bh returns, as unsigned; 0 if there is none
  pub skip_dlm_unlock : Bool
  pub lm_lock_einval : Bool  -- lm_lock returns -EINVAL
  pub lm_lock_fails : Bool  -- lm_lock returns another error
  pub inode : Bool  -- LM_TYPE_INODE
  pub flock : Bool  -- LM_TYPE_FLOCK
  pub may_demote : Bool  -- go_demote_ok, if there is one
  pub block_locks : Bool  -- DFL_BLOCK_LOCKS
  pub jiffies : ℕ
  pub hold_decr : ℕ  -- GL_GLOCK_HOLD_DECR

abbrev pub bug_on : Bool → Glock → Glock
bug_on b gl = record gl { bug = gl.bug || b }

-- From `skip_inval` on: gfs2_withdraw_delayed has withdrawn a file system with an error.
abbrev pub later : World → World
later w = record w { withdrawn = w.withdrawn || w.withdrawn_meanwhile || w.log_error }

unfoldable pub glock_blocked_by_withdraw : World → Bool
glock_blocked_by_withdraw w =
    if not w.withdrawn then false else if w.nondisk then false else not w.own_journal
