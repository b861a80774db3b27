-- ===== src/Args.antt =====
-- Checking the arguments of a call: fs/dlm/lock.c 2624-2917.
pub mod Checks
pub mod Idle
pub mod Notify
use lockify.Base.{
  ℕ, Bool, true, false, not, ◌&&◌, ◌||◌, List, Option, none, some, if◌then◌else◌, ◌==◌, ltb, elem,
  list_del,
}
use lockify.Modes.{Mode, nl, cr, cw, pr, pw, ex, mode_eq, quecvt_compat}
use lockify.State.Flags.{LkFlags, flags_or, not_for_unlock}
use lockify.State.Events.{
  MsgType, request, unlock, cancel_msg, lookup_msg, notify_msg, LkSts, is_granted, Errno, success,
  einval, ebusy, enoent, ecancel, eunlock, no_sbflags,
}
use lockify.State.{State, Lkb, Rsb, modify, put_rsb, is_overlap}
use lockify.State.Set.{unhold_lkb}
use lockify.Wire.{queue_cast}
use lockify.Waiters.{is_waiting, waits_for}

-- The `int mode` of a call.
pub data IntMode : Type 0 where
  negative : IntMode
  natural : ℕ → IntMode

-- `mode < 0 || mode > DLM_LOCK_EX` is `none`.
unfoldable pub valid_mode : IntMode → Option Mode
valid_mode negative = none
valid_mode (natural m) =
    if m == 0
    then some nl
    else if m == 1
    then some cr
    else if m == 2
    then some cw
    else if m == 3
    then some pr
    else if m == 4
    then some pw
    else if m == 5
    then some ex
    else none

-- `struct dlm_lksb`, as far as the checks read it.
pub record Lksb : Type 0 where
  pub sb_lkid : ℕ
  pub sb_lvbptr : Option (List ℕ)

-- `struct dlm_args` of a lock call.
pub record LockArgs : Type 0 where
  pub flags : LkFlags
  pub astparam : ℕ
  pub bast : Bool  -- bastfn is not null
  pub mode : Mode
  pub lksb : Lksb

abbrev pub dlm_resname_maxlen : ℕ
dlm_resname_maxlen = 64

-- The checks of `set_lock_args` on the flags, for a mode in range.
unfoldable pub flags_refused : LkFlags → Mode → ℕ → Bool
flags_refused f mode namelen =
    (not f.convert && ltb dlm_resname_maxlen namelen)
    || f.cancel
    || (f.quecvt && not f.convert)
    || (f.convdeadlk && not f.convert)
    || (f.convdeadlk && f.noqueue)
    || (f.expedite && f.convert)
    || (f.expedite && f.quecvt)
    || (f.expedite && f.noqueue)
    || (f.expedite && not (mode_eq mode nl))

abbrev pub is_null : Option (List ℕ) → Bool
is_null none = true
is_null (some b) = false

-- The checks on the status block.
unfoldable pub lksb_refused : LkFlags → Lksb → Bool
lksb_refused f lksb = (f.valblk && is_null lksb.sb_lvbptr) || (f.convert && (lksb.sb_lkid == 0))

-- `none` is -EINVAL. `ast` says that a completion function is given; `lksb` is `none` for null.
unfoldable pub set_lock_args :
    IntMode → Option Lksb → LkFlags → ℕ → Bool → ℕ → Bool → Option LockArgs
set_lock_args mode lksb f namelen ast astparam bast = elim (valid_mode mode) [
  | none ↦ none
  | some m ↦ elim lksb [
    | none ↦ none
    | some sb ↦
        if flags_refused f m namelen || not ast || lksb_refused f sb
        then none
        else some (record { flags = f; astparam = astparam; bast = bast; mode = m; lksb = sb })
  ]
]

pub record UnlockArgs : Type 0 where
  pub flags : LkFlags
  pub astparam : ℕ

unfoldable pub set_unlock_args : LkFlags → ℕ → Option UnlockArgs
set_unlock_args f astarg =
    if not_for_unlock f || (f.cancel && f.forceunlock)
    then none
    else some (record { flags = f; astparam = astarg })

abbrev pub is_notify : MsgType → Bool
is_notify notify_msg = true
is_notify _ = false

unfoldable pub store_args : LockArgs → Lkb → Lkb
store_args a l = record l {
  exflags = a.flags;
  sbflags = no_sbflags;
  astfn = true;
  astparam = a.astparam;
  bastfn = a.bast;
  rqmode = a.mode;
  lksb = true;
  lvbptr = a.lksb.sb_lvbptr;
}

-- The checks on a conversion; `success` if the arguments are to be stored.
unfoldable pub check_convert : Lkb → LockArgs → Errno
check_convert l a =
    if not (is_granted l.status) || is_waiting l || not (l.wait_count == 0) || is_overlap l
    then ebusy
    else if l.mstcpy || (a.flags.quecvt && not (quecvt_compat l.grmode a.mode))
    then einval
    else success

abbrev pub store_if : Errno → State → ℕ → LockArgs → State × Errno
store_if success s i a = (modify s i (store_args a), success)
store_if error s i a = (s, error)

unfoldable pub validate_lock_args : State → ℕ → LockArgs → State × Errno
validate_lock_args s i a =
    let l = s.lkbs i in
    if waits_for is_notify l
    then (s, success)
    else store_if (if a.flags.convert then check_convert l a else success) s i a

unfoldable pub set_overlap_cancel : Lkb → Lkb
set_overlap_cancel l = record l { overlap_cancel = true }

unfoldable pub set_overlap_unlock : Lkb → Lkb
set_overlap_unlock l = record l { overlap_unlock = true }

-- `out_ok`
unfoldable pub store_unlock_args : UnlockArgs → Lkb → Lkb
store_unlock_args a l = record l {
  exflags = flags_or l.exflags a.flags;
  sbflags = no_sbflags;
  astparam = a.astparam;
}

abbrev pub accept : State → ℕ → UnlockArgs → State × Errno
accept s i a = (modify s i (store_unlock_args a), success)

-- A lookup or a request is under way.
abbrev pub is_opening : MsgType → Bool
is_opening request = true
is_opening lookup_msg = true
is_opening _ = false

abbrev pub is_closing : MsgType → Bool
is_closing unlock = true
is_closing cancel_msg = true
is_closing _ = false

abbrev pub is_unlocking : MsgType → Bool
is_unlocking unlock = true
is_unlocking _ = false

-- The part of `validate_unlock_args` for CANCEL.
unfoldable pub validate_cancel : State → ℕ → UnlockArgs → State × Errno
validate_cancel s i a =
    let l = s.lkbs i in
    if l.exflags.cancel || is_overlap l
    then (s, einval)
    else if l.resend
    then (modify s i set_overlap_cancel, ebusy)
    else if is_granted l.status && not (is_waiting l)
    then (s, ebusy)
    else if waits_for is_opening l
    then (modify s i set_overlap_cancel, ebusy)
    else if waits_for is_closing l
    then (s, einval)
    else accept s i a

-- The part for FORCEUNLOCK.
unfoldable pub validate_force : State → ℕ → UnlockArgs → State × Errno
validate_force s i a =
    let l = s.lkbs i in
    if l.exflags.forceunlock || l.overlap_unlock
    then (s, einval)
    else if l.resend
    then (modify s i set_overlap_unlock, ebusy)
    else if waits_for is_opening l
    then (modify s i set_overlap_unlock, ebusy)
    else if waits_for is_unlocking l
    then (s, einval)
    else accept s i a

-- The lock waits for the lookup of another: it is taken off that list, and is done.
abbrev pub abandon_lookup : State → ℕ → UnlockArgs → State
abandon_lookup s i a =
    let t = put_rsb s (record s.rsb { lookup = list_del i s.rsb.lookup }) in
    unhold_lkb (queue_cast t i (if a.flags.cancel then ecancel else eunlock)) i

unfoldable pub validate_unlock_args : State → ℕ → UnlockArgs → State × Errno
validate_unlock_args s i a =
    let l = s.lkbs i in
    let forced = a.flags.cancel || a.flags.forceunlock in
    if waits_for is_notify l
    then (s, success)
    else if not forced && (is_waiting l || not (l.wait_count == 0))
    then (s, ebusy)
    else if elem i s.rsb.lookup
    then (if forced then abandon_lookup s i a else s, ebusy)
    else if l.mstcpy
    then (s, einval)
    else if l.endoflife
    then (s, enoent)
    else if a.flags.cancel
    then validate_cancel s i a
    else if a.flags.forceunlock
    then validate_force s i a
    else accept s i a
