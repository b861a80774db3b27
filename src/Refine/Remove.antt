-- ===== src/Refine/Remove.antt =====
-- Removing a lock and reverting its request are steps of the table.
use lockify.Base.{ℕ, ◌≡◌, refl, false, ◌==◌, if◌then◌else◌, arith, update}
use lockify.Modes.{iv}
use lockify.State.Events.{LkSts}
use lockify.State.{State, Lkb, modify}
use lockify.State.Set.{set_grmode, set_rqmode, unhold_lkb}
use lockify.Spec.{here, next, release}
use lockify.Queue.{del_lkb, move_lkb}
use lockify.Grant.{remove_held, remove_lock, revert_lock, Reverted}
use lockify.Refine.Frame.{
  Keeps, is_listed, del_lkb-Keeps, move_lkb-Keeps, del_lkb-is_listed, move_lkb-granted-is_listed,
  unhold-Keeps,
}
use lockify.Refine.Quiet.{set_lvb_unlock-Quiet}
use lockify.Refine.Relation.{IsMild, Inv, Refines, Refines-trans, Refines-refl, Quiet-Refines}

dropped-IsMild :
    (f g h : ℕ → Lkb) (i : ℕ)
    → Keeps f g
    → Keeps (update g i (set_grmode iv (g i))) h
    → ((j : ℕ) → IsMild (f j))
    → (j : ℕ) → IsMild (h j)
unfolding set_grmode
dropped-IsMild f g h i k l mild j x = ground (arith, k.rq j, k.fl j, l.rq j, l.fl j, mild j)

dropped-grmode :
    (f g h : ℕ → Lkb) (i : ℕ)
    → Keeps f g
    → Keeps (update g i (set_grmode iv (g i))) h
    → (j : ℕ) → (h j).grmode ≡ update (λ j. (f j).grmode) i iv j
unfolding set_grmode
dropped-grmode f g h i k l j = ground (arith, k.gr j, l.gr j)

-- Lock `i` has left the queues and has no mode any more.
dropped-Refines :
    (s t u : State) (i : ℕ)
    → Keeps s.lkbs t.lkbs
    → Keeps (update t.lkbs i (set_grmode iv (t.lkbs i))) u.lkbs
    → ((j : ℕ) → is_listed u.rsb j ≡ (if i == j then false else is_listed s.rsb j))
    → Inv s
    → Refines s u
dropped-Refines s t u i k l listed v = record {
  steps = next (here (λ j. refl)) (release i (dropped-grmode s.lkbs t.lkbs u.lkbs i k l));
  inv = record {
    listed =
        λ j h. ground (arith, listed j, dropped-grmode s.lkbs t.lkbs u.lkbs i k l j, v.listed j);
    mild = dropped-IsMild s.lkbs t.lkbs u.lkbs i k l v.mild;
  };
}

abbrev drop_lkb : State → ℕ → State
drop_lkb s i = unhold_lkb (modify (del_lkb s i) i (set_grmode iv)) i

drop_lkb-Refines : (s : State) (i : ℕ) → Inv s → Refines s (drop_lkb s i)
drop_lkb-Refines s i v =
    dropped-Refines s (del_lkb s i) (drop_lkb s i) i (del_lkb-Keeps s i) (unhold-Keeps _ i)
      (del_lkb-is_listed s i) v

pub remove_held-Refines : (s : State) (i : ℕ) → Inv s → Refines s (remove_held s i)
unfolding remove_held
remove_held-Refines s i v = drop_lkb-Refines s i v

pub remove_lock-Refines : (s : State) (i : ℕ) → Inv s → Refines s (remove_lock s i)
unfolding remove_lock
remove_lock-Refines s i v =
    Refines-trans (Quiet-Refines (set_lvb_unlock-Quiet s i) v) (remove_held-Refines _ i)

no_request-Refines : (s : State) (i : ℕ) → Inv s → Refines s (modify s i (set_rqmode iv))
unfolding set_rqmode
no_request-Refines s i v = record {
  steps = here (λ j. ground arith);
  inv = record {
    listed = λ j h. ground (arith, v.listed j);
    mild = λ j x. ground (arith, v.mild j);
  };
}

-- Moving a lock to the grant queue changes no mode.
moved-Refines : (s : State) (i : ℕ) → Inv s → Refines s (move_lkb s i LkSts.granted)
moved-Refines s i v = record {
  steps = here k.gr;
  inv = record {
    listed = λ j h. ground (arith, move_lkb-granted-is_listed s i j, k.gr j, v.listed j);
    mild = λ j x. ground (arith, k.rq j, k.fl j, v.mild j);
  };
}
  where
    k : Keeps s.lkbs (move_lkb s i LkSts.granted).lkbs
    k = move_lkb-Keeps s i LkSts.granted

by_status-Refines :
    (s : State) (i : ℕ) (sts : LkSts)
    → Inv s
    → Refines s (
        (elim sts as (λ _. State × Reverted) [
          | LkSts.granted ↦ (s, Reverted.nothing)
          | LkSts.convert ↦ (move_lkb s i LkSts.granted, Reverted.moved)
          | LkSts.waiting ↦ (drop_lkb s i, Reverted.removed)
          | LkSts.off ↦ (s, Reverted.nothing)
        ]).0)
by_status-Refines s i LkSts.off v = Refines-refl s v
by_status-Refines s i LkSts.granted v = Refines-refl s v
by_status-Refines s i LkSts.convert v = moved-Refines s i v
by_status-Refines s i LkSts.waiting v = drop_lkb-Refines s i v

pub revert_lock-Refines : (s : State) (i : ℕ) → Inv s → Refines s (revert_lock s i).0
unfolding revert_lock
revert_lock-Refines s i v =
    Refines-trans (no_request-Refines s i v) (by_status-Refines t i (t.lkbs i).status)
  where
    t : State
    t = modify s i (set_rqmode iv)
