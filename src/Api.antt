-- ===== src/Api.antt =====
-- Stages 1 and 2 on a resource that `find_rsb` has found: fs/dlm/lock.c 3157-3259 and 3329-3377.
pub mod Calls
pub mod Safety
use lockify.Base.{
  ℕ, Bool, true, false, not, ◌&&◌, ◌||◌, Option, none, some, if◌then◌else◌, ◌==◌, List, [], ◌∷◌,
}
use lockify.State.Flags.{LkFlags}
use lockify.State.Events.{
  Errno, success, einval, ebusy, eagain, einprogress, edeadlk, enoent, eintr, ecancel, eunlock,
  is_success,
}
use lockify.State.{State, Lkb, modify}
use lockify.State.Set.{add_ref, put_lkb, set_parent}
use lockify.Args.{
  IntMode, Lksb, LockArgs, UnlockArgs, set_lock_args, set_unlock_args, validate_lock_args,
  validate_unlock_args,
}
use lockify.Stage.{rsb_request_lock, rsb_convert_lock, rsb_unlock_lock, rsb_cancel_lock}

-- The next stage, if the arguments are good.
abbrev pub if_valid : State × Errno → (State → State × Errno) → State × Errno
if_valid r k = if is_success r.1 then k r.0 else r

-- From `lock_rsb` on.
unfoldable pub request_lock : State → ℕ → LockArgs → State × Errno
request_lock s i a = if_valid (validate_lock_args s i a) (λ t. rsb_request_lock t i)

unfoldable pub convert_lock : State → ℕ → LockArgs → State × Errno
convert_lock s i a = if_valid (validate_lock_args s i a) (λ t. rsb_convert_lock t i)

-- `none` while the call sleeps until the children of the lock are done. `signal` says that a signal
-- interrupts the sleep.
unfoldable pub unlock_lock : State → ℕ → UnlockArgs → Bool → Option (State × Errno)
unlock_lock s i a signal =
    if (s.lkbs i).total_children == 0
    then some (if_valid (validate_unlock_args s i a) (λ t. rsb_unlock_lock t i))
    else if signal
    then some (s, eintr)
    else none

unfoldable pub cancel_lock : State → ℕ → UnlockArgs → State × Errno
cancel_lock s i a = if_valid (validate_unlock_args s i a) (λ t. rsb_cancel_lock t i)

-- What `dlm_lock` makes of the error of its stage 2: for the test at `out_put`, and at last.
abbrev pub not_in_progress : Errno → Errno
not_in_progress einprogress = success
not_in_progress error = error

abbrev pub lock_result : Errno → Errno
lock_result eagain = success
lock_result edeadlk = success
lock_result error = error

-- `out_put`
abbrev pub finish_lock : LkFlags → ℕ → State × Errno → State × Errno
finish_lock f i r =
    let error = not_in_progress r.1 in
    (if f.convert || not (is_success error) then put_lkb r.0 i else r.0, lock_result error)

abbrev pub lock_args : State → ℕ → LkFlags → LockArgs → State × Errno
lock_args s i f a = if f.convert then convert_lock s i a else request_lock s i a

-- For a new lock, `i` is the lock that `create_lkb` has made.
unfoldable pub dlm_lock :
    State → ℕ → IntMode → Option Lksb → LkFlags → ℕ → Bool → ℕ → Bool → ℕ → State × Errno
dlm_lock s i mode lksb f namelen ast astparam bast parent =
    let t = if f.convert then modify s i add_ref else s in
    if f.convert && not (s.present i)
    then (s, enoent)
    else elim (set_lock_args mode lksb f namelen ast astparam bast) [
      | none ↦ finish_lock f i (t, einval)
      | some a ↦
          finish_lock f i (lock_args (if f.notify then modify t i (set_parent parent) else t) i f a)
    ]

-- What `dlm_unlock` makes of the error of its stage 2.
unfoldable pub unlock_result : LkFlags → Errno → Errno
unlock_result f eunlock = success
unlock_result f ecancel = success
unlock_result f ebusy = if f.cancel || f.forceunlock then success else ebusy
unlock_result f error = error

abbrev pub finish_unlock : LkFlags → ℕ → State × Errno → State × Errno
finish_unlock f i r = (put_lkb r.0 i, unlock_result f r.1)

abbrev pub finish_sleep : LkFlags → ℕ → Option (State × Errno) → Option (State × Errno)
finish_sleep f i none = none
finish_sleep f i (some r) = some (finish_unlock f i r)

unfoldable pub dlm_unlock : State → ℕ → LkFlags → ℕ → Bool → Option (State × Errno)
dlm_unlock s i f astarg signal =
    let t = modify s i add_ref in
    if not (s.present i) then some (s, enoent) else elim (set_unlock_args f astarg) [
      | none ↦ some (put_lkb t i, einval)
      | some a ↦
          if f.cancel
          then some (finish_unlock f i (cancel_lock t i a))
          else finish_sleep f i (unlock_lock t i a signal)
    ]
