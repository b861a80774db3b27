-- ===== src/Refine/Args.antt =====
-- The checks on the arguments of a call change no mode: fs/dlm/lock.c 2702-2915.
use lockify.Base.{ℕ, ◌≡◌, refl, Bool, not, ◌&&◌, ◌||◌, arith, ◌==◌, elem, list_del}
use lockify.State.Events.{Errno, success, is_granted}
use lockify.State.{State, Lkb, modify, put_rsb, is_overlap}
use lockify.Spec.{here}
use lockify.Waiters.{waits_for, is_waiting}
use lockify.Args.{
  LockArgs, UnlockArgs, validate_lock_args, store_args, is_notify, validate_cancel, validate_force,
  validate_unlock_args, set_overlap_cancel, set_overlap_unlock, store_unlock_args, store_if,
  abandon_lookup, is_opening, is_closing, is_unlocking, accept,
}
use lockify.Refine.Frame.{Still-refl}
use lockify.Refine.Quiet.{alike, Quiet-trans, queue_cast-Quiet}
use lockify.Refine.Relation.{Inv, Refines, Refines-refl, Quiet-Refines}
use lockify.Refine.Pending.{choose-Refines}
use lockify.Refine.Send.{modify-Quiet, unhold-Quiet, state_of}
use lockify.Args.Checks.{IsChecked, IsUnlockChecked}

stored-Refines :
    (s : State) (i : ℕ) (a : LockArgs) → IsChecked a → Inv s → Refines s (modify s i (store_args a))
unfolding store_args
stored-Refines s i a c v = record {
  steps = here (λ j. ground arith);
  inv = record {
    listed = λ j h. ground (arith, v.listed j);
    mild = λ j x. ground (arith, v.mild j, c.expedite_nl);
  };
}

store_if-Refines :
    (e : Errno) (s : State) (i : ℕ) (a : LockArgs)
    → IsChecked a
    → Inv s
    → Refines s (store_if e s i a).0
store_if-Refines success s i a c v = stored-Refines s i a c v
store_if-Refines e s i a c v = Refines-refl s v

pub validate_lock_args-Refines :
    (s : State) (i : ℕ) (a : LockArgs)
    → IsChecked a
    → Inv s
    → Refines s (validate_lock_args s i a).0
unfolding validate_lock_args
validate_lock_args-Refines s i a c v =
    choose-Refines state_of _ _ (waits_for is_notify (s.lkbs i)) (λ _. Refines-refl s v)
      (λ _. store_if-Refines _ s i a c v)

accept-Refines :
    (s : State) (i : ℕ) (a : UnlockArgs) → IsUnlockChecked a → Inv s → Refines s (accept s i a).0
unfolding store_unlock_args
accept-Refines s i a c v = record {
  steps = here (λ j. ground arith);
  inv = record {
    listed = λ j h. ground (arith, v.listed j);
    mild = λ j x. ground (arith, v.mild j, c.not_expedite);
  };
}

overlap_cancel-Refines : (s : State) (i : ℕ) → Inv s → Refines s (modify s i set_overlap_cancel)
unfolding set_overlap_cancel
overlap_cancel-Refines s i v =
    Quiet-Refines (modify-Quiet s i set_overlap_cancel refl refl refl refl) v

overlap_unlock-Refines : (s : State) (i : ℕ) → Inv s → Refines s (modify s i set_overlap_unlock)
unfolding set_overlap_unlock
overlap_unlock-Refines s i v =
    Quiet-Refines (modify-Quiet s i set_overlap_unlock refl refl refl refl) v

abandon_lookup-Refines :
    (s : State) (i : ℕ) (a : UnlockArgs) → Inv s → Refines s (abandon_lookup s i a)
abandon_lookup-Refines s i a v =
    Quiet-Refines
      (Quiet-trans
        (alike s (put_rsb s (record s.rsb { lookup = list_del i s.rsb.lookup })) (Still-refl s.lkbs)
          refl refl refl)
        (Quiet-trans (queue_cast-Quiet _ i _) (unhold-Quiet _ i)))
      v

validate_cancel-Refines :
    (s : State) (i : ℕ) (a : UnlockArgs)
    → IsUnlockChecked a
    → Inv s
    → Refines s (validate_cancel s i a).0
unfolding validate_cancel
validate_cancel-Refines s i a c v =
    choose-Refines state_of _ _ (l.exflags.cancel || is_overlap l) (λ _. Refines-refl s v)
      λ _.
        choose-Refines state_of _ _ l.resend (λ _. overlap_cancel-Refines s i v)
          λ _.
            choose-Refines state_of _ _ (is_granted l.status && not (is_waiting l))
              (λ _. Refines-refl s v)
              λ _.
                choose-Refines state_of _ _ (waits_for is_opening l)
                  (λ _. overlap_cancel-Refines s i v)
                  λ _.
                    choose-Refines state_of _ _ (waits_for is_closing l) (λ _. Refines-refl s v)
                      (λ _. accept-Refines s i a c v)
  where
    l : Lkb
    l = s.lkbs i

validate_force-Refines :
    (s : State) (i : ℕ) (a : UnlockArgs)
    → IsUnlockChecked a
    → Inv s
    → Refines s (validate_force s i a).0
unfolding validate_force
validate_force-Refines s i a c v =
    choose-Refines state_of _ _ (l.exflags.forceunlock || l.overlap_unlock) (λ _. Refines-refl s v)
      λ _.
        choose-Refines state_of _ _ l.resend (λ _. overlap_unlock-Refines s i v)
          λ _.
            choose-Refines state_of _ _ (waits_for is_opening l) (λ _. overlap_unlock-Refines s i v)
              λ _.
                choose-Refines state_of _ _ (waits_for is_unlocking l) (λ _. Refines-refl s v)
                  (λ _. accept-Refines s i a c v)
  where
    l : Lkb
    l = s.lkbs i

pub validate_unlock_args-Refines :
    (s : State) (i : ℕ) (a : UnlockArgs)
    → IsUnlockChecked a
    → Inv s
    → Refines s (validate_unlock_args s i a).0
unfolding validate_unlock_args
validate_unlock_args-Refines s i a c v =
    choose-Refines state_of _ _ (waits_for is_notify l) same λ _.
      choose-Refines state_of _ _ (not forced && (is_waiting l || not (l.wait_count == 0))) same
        λ _.
          choose-Refines state_of _ _ (elem i s.rsb.lookup)
            (λ _.
              choose-Refines (λ (s : State). s) _ _ forced (λ _. abandon_lookup-Refines s i a v)
                same)
            λ _. choose-Refines state_of _ _ l.mstcpy same λ _.
              choose-Refines state_of _ _ l.endoflife same λ _.
                choose-Refines state_of _ _ a.flags.cancel (λ _. validate_cancel-Refines s i a c v)
                  λ _.
                    choose-Refines state_of _ _ a.flags.forceunlock
                      (λ _. validate_force-Refines s i a c v) (λ _. accept-Refines s i a c v)
  where
    l : Lkb
    l = s.lkbs i

    forced : Bool
    forced = a.flags.cancel || a.flags.forceunlock

    same : {b c : Bool} → b ≡ c → Refines s s
    same _ = Refines-refl s v
