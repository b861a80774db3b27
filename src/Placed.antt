-- ===== src/Placed.antt =====
-- On which queue each lock stands, under the operations: fs/dlm/lock.c 1867-3065.
pub mod Pending
pub mod Op
pub mod Stage
use lockify.Base.{
  ℕ, ◌≡◌, refl, sym, ap, ◌∙◌, Bool, true, false, not, ◌&&◌, if◌then◌else◌, ◌==◌, ==-refl, arith,
  update, elem, subst, Bool-cases, Option-cases, Option, none, some, inl, inr,
}
use lockify.Modes.{Mode, iv, mode_eq}
use lockify.State.Events.{LkSts, is_off, is_granted, Errno, success}
use lockify.State.{State, Lkb, Rsb, modify, can_be_queued}
use lockify.State.Set.{
  set_grmode, set_rqmode, set_demoted, set_altmode, clear_request, hold_lkb, unhold_lkb,
}
use lockify.Queue.{add_lkb, del_lkb, move_lkb}
use lockify.Queue.Placed.{
  IsPlaced, is_convert_sts, is_waiting_sts, add_lkb-IsPlaced, del_lkb-IsPlaced, move_lkb-IsPlaced,
  ref-IsPlaced,
}
use lockify.Pending.Measure.{Distinct}
use lockify.Wire.{queue_cast, send_grant}
use lockify.Grant.{
  Verdict, Reverted, remove_held, remove_lock, revert_lock, grant_held, grant_lock,
  grant_lock_pending, can_be_granted, try_alt, alt_mode, grantable, conversion_deadlock_detect,
}
use lockify.Lvb.{set_lvb_lock, set_lvb_unlock}
use lockify.Refine.Quiet.{
  Quiet, set_lvb_lock-Quiet, set_lvb_unlock-Quiet, send_grant-Quiet, queue_cast-Quiet,
}

pub Quiet-IsPlaced : {s t : State} → Quiet s t → IsPlaced s → IsPlaced t
Quiet-IsPlaced q v = record {
  granted = λ j. ap (elem j) q.granted ∙ v.granted j ∙ sym (ap is_granted (q.still.status j));
  converting =
      λ j. ap (elem j) q.converting ∙ v.converting j ∙ sym (ap is_convert_sts (q.still.status j));
  waiting = λ j. ap (elem j) q.waiting ∙ v.waiting j ∙ sym (ap is_waiting_sts (q.still.status j));
  once_granted = subst Distinct (sym q.granted) v.once_granted;
  once_converting = subst Distinct (sym q.converting) v.once_converting;
  once_waiting = subst Distinct (sym q.waiting) v.once_waiting;
}

-- A write to a lock that leaves its status alone.
pub modify-IsPlaced :
    (s : State) (i : ℕ) (f : Lkb → Lkb)
    → (f (s.lkbs i)).status ≡ (s.lkbs i).status
    → IsPlaced s
    → IsPlaced (modify s i f)
modify-IsPlaced s i f e v = record {
  granted = λ j. ground (arith, v.granted j);
  converting = λ j. ground (arith, v.converting j);
  waiting = λ j. ground (arith, v.waiting j);
  once_granted = v.once_granted;
  once_converting = v.once_converting;
  once_waiting = v.once_waiting;
}

-- Between two states, or two values that carry one.
pub choose-IsPlaced :
    {S : Type 0} (p : S → State) (x y : S) (b : Bool)
    → (b ≡ true → IsPlaced (p x))
    → (b ≡ false → IsPlaced (p y))
    → IsPlaced (p (if b then x else y))
choose-IsPlaced p x y true f g = f refl
choose-IsPlaced p x y false f g = g refl

pub remove_lock-IsPlaced : (s : State) (i : ℕ) → IsPlaced s → IsPlaced (remove_lock s i)
unfolding remove_lock remove_held set_grmode
remove_lock-IsPlaced s i v =
    (ref-IsPlaced _ i (
      modify-IsPlaced (del_lkb (set_lvb_unlock s i) i) i (set_grmode iv) refl
        (del_lkb-IsPlaced (set_lvb_unlock s i) i (Quiet-IsPlaced (set_lvb_unlock-Quiet s i) v)))).1

pub revert_lock-IsPlaced : (s : State) (i : ℕ) → IsPlaced s → IsPlaced (revert_lock s i).0
unfolding revert_lock set_rqmode set_grmode
revert_lock-IsPlaced s i v = by_status (t.lkbs i).status
  where
    t : State
    t = modify s i (set_rqmode iv)

    w : IsPlaced t
    w = modify-IsPlaced s i (set_rqmode iv) refl v

    by_status :
        (sts : LkSts)
        → IsPlaced
            (elim sts as (λ _. State × Reverted) [
              | LkSts.granted ↦ (t, Reverted.nothing)
              | LkSts.convert ↦ (move_lkb t i LkSts.granted, Reverted.moved)
              | LkSts.waiting ↦
                  (unhold_lkb (modify (del_lkb t i) i (set_grmode iv)) i, Reverted.removed)
              | LkSts.off ↦ (t, Reverted.nothing)
            ]).0
    by_status LkSts.granted = w
    by_status LkSts.convert = move_lkb-IsPlaced t i LkSts.granted refl w
    by_status LkSts.waiting =
        (ref-IsPlaced _ i
          (modify-IsPlaced (del_lkb t i) i (set_grmode iv) refl (del_lkb-IsPlaced t i w))).1
    by_status LkSts.off = w

pub grant_held-IsPlaced : (s : State) (i : ℕ) → IsPlaced s → IsPlaced (grant_held s i)
unfolding grant_held clear_request set_grmode
grant_held-IsPlaced s i v = modify-IsPlaced _ i clear_request refl (
    choose-IsPlaced (λ (s : State). s) _ _ (mode_eq (s.lkbs i).grmode (s.lkbs i).rqmode) (λ _. v)
      λ _.
        choose-IsPlaced (λ (s : State). s) _ _ (is_off (s.lkbs i).status)
          (λ off. add_lkb-IsPlaced t i LkSts.granted (ground (arith, off)) refl w)
          (λ _. move_lkb-IsPlaced t i LkSts.granted refl w))
  where
    t : State
    t = modify s i (set_grmode (s.lkbs i).rqmode)

    w : IsPlaced t
    w = modify-IsPlaced s i (set_grmode (s.lkbs i).rqmode) refl v

pub grant_lock-IsPlaced : (s : State) (i : ℕ) → IsPlaced s → IsPlaced (grant_lock s i)
unfolding grant_lock
grant_lock-IsPlaced s i v =
    grant_held-IsPlaced (set_lvb_lock s i) i (Quiet-IsPlaced (set_lvb_lock-Quiet s i) v)

pub grant_lock_pending-IsPlaced :
    (s : State) (i : ℕ) → IsPlaced s → IsPlaced (grant_lock_pending s i)
unfolding grant_lock_pending
grant_lock_pending-IsPlaced s i v =
    choose-IsPlaced (λ (s : State). s) _ _ ((grant_lock s i).lkbs i).mstcpy
      (λ _. Quiet-IsPlaced (send_grant-Quiet _ i) (grant_lock-IsPlaced s i v))
      (λ _. Quiet-IsPlaced (queue_cast-Quiet _ i success) (grant_lock-IsPlaced s i v))

try_alt-IsPlaced : (s : State) (i : ℕ) (now : Bool) → IsPlaced s → IsPlaced (try_alt s i now).0
unfolding try_alt set_altmode
try_alt-IsPlaced s i now v = elim (Option-cases (alt_mode (s.lkbs i))) [
  | inl e ↦ rw (e, try_alt) v
  | inr (alt, e) ↦ elim (Bool-cases (grantable (modify s i (set_rqmode alt)) i now false)) [
    | inl y ↦ rw (e, y, try_alt) (modify-IsPlaced s i (set_altmode alt) refl v)
    | inr n ↦ rw (e, n, try_alt) v
  ]
]

abbrev state_of : Verdict → State
state_of v = v.after

pub can_be_granted-IsPlaced :
    (s : State) (i : ℕ) (now recover want_err : Bool)
    → IsPlaced s
    → IsPlaced (can_be_granted s i now recover want_err).after
unfolding can_be_granted set_demoted
can_be_granted-IsPlaced s i now recover want_err v =
    choose-IsPlaced state_of _ _ (grantable s i now recover) (λ _. v)
      λ _.
        choose-IsPlaced state_of _ _
          (not (mode_eq (s.lkbs i).grmode iv)
            && can_be_queued (s.lkbs i)
            && conversion_deadlock_detect s i)
          (λ _.
            choose-IsPlaced state_of _ _ (s.lkbs i).exflags.convdeadlk
              (λ _. modify-IsPlaced s i set_demoted refl v) (λ _. v))
          (λ _. try_alt-IsPlaced s i now v)
