-- ===== src/Api/Calls.antt =====
-- Each call of a user implements the table: fs/dlm/lock.c 3157-3390.
use lockify.Base.{ℕ, ◌≡◌, refl, Bool, not, ◌&&◌, ◌||◌, Option, none, some, if◌then◌else◌, ◌==◌}
use lockify.State.Flags.{LkFlags}
use lockify.State.Events.{Errno, is_success}
use lockify.State.{State, modify}
use lockify.State.Set.{add_ref, put_lkb, set_parent}
use lockify.Spec.{IsCompatible, Steps-IsCompatible}
use lockify.Args.{
  IntMode, Lksb, LockArgs, UnlockArgs, set_lock_args, set_unlock_args, validate_lock_args,
  validate_unlock_args,
}
use lockify.Args.Checks.{
  IsChecked, IsUnlockChecked, set_lock_args-IsChecked, set_unlock_args-IsUnlockChecked,
}
use lockify.Api.{
  request_lock, convert_lock, unlock_lock, cancel_lock, dlm_lock, dlm_unlock, finish_lock,
  finish_unlock, finish_sleep, lock_args, not_in_progress,
}
use lockify.Refine.Relation.{table, Inv, Refines, Refines-trans, Refines-refl, Quiet-Refines}
use lockify.Refine.Pending.{choose-Refines}
use lockify.Refine.Args.{validate_lock_args-Refines, validate_unlock_args-Refines}
use lockify.Refine.Send.{state_of, hold-Quiet, put_lkb-Quiet, modify-Quiet}
use lockify.Refine.Quiet.{Quiet}
use lockify.Refine.Stage.{
  rsb_request_lock-Refines, rsb_convert_lock-Refines, rsb_unlock_lock-Refines,
  rsb_cancel_lock-Refines,
}

-- A call that sleeps has changed nothing yet.
abbrev pub after_unlock : State → Option (State × Errno) → State
after_unlock s none = s
after_unlock s (some r) = r.0

-- The invariant of a resource and the safety of its locks.
pub record IsSafe (s : State) : Type 0 where
  pub inv : Inv s
  pub compatible : IsCompatible (table s)

pub Refines-IsSafe : {s t : State} → IsSafe s → Refines s t → IsSafe t
Refines-IsSafe {s} {t} v r = record {
  inv = r.inv;
  compatible = Steps-IsCompatible (table s) (table t) r.steps v.compatible;
}

request_lock-Refines :
    (s : State) (i : ℕ) (a : LockArgs) → IsChecked a → Inv s → Refines s (request_lock s i a).0
unfolding request_lock
request_lock-Refines s i a c v =
    choose-Refines state_of _ _ (is_success (validate_lock_args s i a).1)
      (λ _. Refines-trans (validate_lock_args-Refines s i a c v) (rsb_request_lock-Refines _ i))
      (λ _. validate_lock_args-Refines s i a c v)

convert_lock-Refines :
    (s : State) (i : ℕ) (a : LockArgs) → IsChecked a → IsSafe s → Refines s (convert_lock s i a).0
unfolding convert_lock
convert_lock-Refines s i a c v =
    choose-Refines state_of _ _ (is_success (validate_lock_args s i a).1)
      (λ _. Refines-trans r (rsb_convert_lock-Refines _ i (Refines-IsSafe v r).compatible)) (λ _. r)
  where
    r : Refines s (validate_lock_args s i a).0
    r = validate_lock_args-Refines s i a c v.inv

cancel_lock-Refines :
    (s : State) (i : ℕ) (a : UnlockArgs)
    → IsUnlockChecked a
    → Inv s
    → Refines s (cancel_lock s i a).0
unfolding cancel_lock
cancel_lock-Refines s i a c v =
    choose-Refines state_of _ _ (is_success (validate_unlock_args s i a).1)
      (λ _. Refines-trans (validate_unlock_args-Refines s i a c v) (rsb_cancel_lock-Refines _ i))
      (λ _. validate_unlock_args-Refines s i a c v)

put-Refines : (s : State) (i : ℕ) {u : State} → Refines s u → Refines s (put_lkb u i)
put-Refines s i {u} q = Refines-trans q (Quiet-Refines (put_lkb-Quiet u i))

unlock_lock-Refines :
    (s t : State) (i : ℕ) (f : LkFlags) (a : UnlockArgs) (signal : Bool)
    → IsUnlockChecked a
    → Inv s
    → Refines s t
    → Refines s (after_unlock s (finish_sleep f i (unlock_lock t i a signal)))
unfolding unlock_lock
unlock_lock-Refines s t i f a signal c v r =
    choose-Refines (λ o. after_unlock s (finish_sleep f i o)) _ _ ((t.lkbs i).total_children == 0)
      (λ _. put-Refines s i (
        Refines-trans r λ w.
          choose-Refines state_of _ _ (is_success (validate_unlock_args t i a).1)
            (λ _.
              Refines-trans (validate_unlock_args-Refines t i a c w) (rsb_unlock_lock-Refines _ i))
            (λ _. validate_unlock_args-Refines t i a c w)))
      λ _.
        choose-Refines (λ o. after_unlock s (finish_sleep f i o)) _ _ signal
          (λ _. put-Refines s i r) (λ _. Refines-refl s v)

pub dlm_unlock-Refines :
    (s : State) (i : ℕ) (f : LkFlags) (astarg : ℕ) (signal : Bool)
    → Inv s
    → Refines s (after_unlock s (dlm_unlock s i f astarg signal))
unfolding dlm_unlock
dlm_unlock-Refines s i f astarg signal v =
    choose-Refines (after_unlock s) _ _ (not (s.present i)) (λ _. Refines-refl s v)
      (λ _. by_args (set_unlock_args f astarg) (set_unlock_args-IsUnlockChecked f astarg))
  where
    t : State
    t = modify s i add_ref

    r : Refines s t
    r = Quiet-Refines (hold-Quiet s i) v

    by_args :
        (o : Option UnlockArgs)
        → ((a : UnlockArgs) → o ≡ some a → IsUnlockChecked a)
        → Refines s (
            after_unlock s (elim o [
              | none ↦ some (put_lkb t i, Errno.einval)
              | some a ↦
                  if f.cancel
                  then some (finish_unlock f i (cancel_lock t i a))
                  else finish_sleep f i (unlock_lock t i a signal)
            ]))
    by_args none c = Refines-trans r (Quiet-Refines (put_lkb-Quiet t i))
    by_args (some a) c =
        choose-Refines (after_unlock s) _ _ f.cancel
          (λ _. put-Refines s i (Refines-trans r (cancel_lock-Refines t i a (c a refl))))
          (λ _. unlock_lock-Refines s t i f a signal (c a refl) v r)

parent-Quiet : (s : State) (i : ℕ) (parent : ℕ) → Quiet s (modify s i (set_parent parent))
unfolding set_parent
parent-Quiet s i parent = modify-Quiet s i (set_parent parent) refl refl refl refl

finish_lock-Refines :
    (s : State) (f : LkFlags) (i : ℕ) (r : State × Errno)
    → Refines s r.0
    → Refines s (finish_lock f i r).0
finish_lock-Refines s f i r q =
    choose-Refines (λ (t : State). t) _ _ (f.convert || not (is_success (not_in_progress r.1)))
      (λ _. put-Refines s i q) (λ _. q)

lock_args-Refines :
    (s : State) (i : ℕ) (f : LkFlags) (a : LockArgs)
    → IsChecked a
    → IsSafe s
    → Refines s (lock_args s i f a).0
lock_args-Refines s i f a c v =
    choose-Refines state_of _ _ f.convert (λ _. convert_lock-Refines s i a c v)
      (λ _. request_lock-Refines s i a c v.inv)

pub dlm_lock-Refines :
    (s : State) (i : ℕ) (mode : IntMode) (lksb : Option Lksb) (f : LkFlags) (n : ℕ) (ast : Bool)
    → (astparam : ℕ) (bast : Bool) (parent : ℕ) → IsSafe s
    → Refines s (dlm_lock s i mode lksb f n ast astparam bast parent).0
unfolding dlm_lock
dlm_lock-Refines s i mode lksb f n ast astparam bast parent v =
    choose-Refines state_of _ _ (f.convert && not (s.present i)) (λ _. Refines-refl s v.inv)
      (λ _.
        by_args (set_lock_args mode lksb f n ast astparam bast)
          (set_lock_args-IsChecked mode lksb f n ast astparam bast))
  where
    t : State
    t = if f.convert then modify s i add_ref else s

    u : State
    u = if f.notify then modify t i (set_parent parent) else t

    p : Refines s t
    p =
        choose-Refines (λ (t : State). t) _ _ f.convert (λ _. Quiet-Refines (hold-Quiet s i) v.inv)
          (λ _. Refines-refl s v.inv)

    q : Refines s u
    q = Refines-trans p λ w.
        choose-Refines (λ (t : State). t) _ _ f.notify
          (λ _. Quiet-Refines (parent-Quiet t i parent) w) (λ _. Refines-refl t w)

    by_args :
        (o : Option LockArgs)
        → ((a : LockArgs) → o ≡ some a → IsChecked a)
        → Refines s
            (elim o as (λ _. State × Errno) [
              | none ↦ finish_lock f i (t, Errno.einval)
              | some a ↦ finish_lock f i (lock_args u i f a)
            ]).0
    by_args none c = finish_lock-Refines s f i (t, Errno.einval) p
    by_args (some a) c =
        finish_lock-Refines s f i (lock_args u i f a)
          (Refines-trans q (λ _. lock_args-Refines u i f a (c a refl) (Refines-IsSafe v q)))
