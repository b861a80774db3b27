-- ===== src/Waiters/Count.antt =====
-- The count of outstanding replies is exact, and a lock is listed as long as one is outstanding:
-- fs/dlm/lock.c 1431-1606.
use lockify.Base.{
  one_if, ℕ, ◌+◌, ◌≡◌, refl, Bool, true, false, not, ◌&&◌, ◌||◌, if◌then◌else◌, ◌==◌, arith, elem,
  elem-list_del, elem-cons, update, ◌<◌, Bool-cases, inl, inr,
}
use lockify.State.Events.{MsgType, NodeId, Errno}
use lockify.State.{State, Lkb, modify}
use lockify.State.Set.{add_ref, drop_ref, unhold_lkb}
use lockify.Waiters.{
  is_waiting, overlap_by_unlock, overlap_by_cancel, start_wait, wait_first, add_to_waiters,
  clear_overlap_unlock, clear_overlap_cancel, give_up_wait, clear_wait_type, end_wait, out_del,
  out_del_overlap, remove_waiter, is_notify_reply, is_unlock_reply, is_cancel_reply,
  is_convert_reply, is_cancel, is_convert, waits_for,
}

-- One outstanding reply for the operation that waits, one for an overlapping cancel and one for an
-- overlapping unlock.
abbrev pub due : Lkb → ℕ
due l = one_if (is_waiting l) + one_if l.overlap_cancel + one_if l.overlap_unlock

-- Each outstanding reply has a reference of its own, so no reference count runs out, and no
-- assertion has failed.
pub record IsCounted (s : State) : Type 0 where
  pub exact : (j : ℕ) → (s.lkbs j).wait_count ≡ due (s.lkbs j)
  pub listed : (j : ℕ) → elem j s.waiters ≡ not ((s.lkbs j).wait_count == 0)
  pub held : (j : ℕ) → (s.lkbs j).wait_count < (s.lkbs j).ref
  pub sound : s.bug ≡ false

-- If the counts of outstanding replies are exact, they are exact after add_to_waiters, whatever
-- its answer: each lock counts its operation and its overlapping cancel and unlock, is listed
-- while one is outstanding, has a reference for each, and no assertion fails.
pub add_to_waiters-IsCounted :
    (s : State) (i : ℕ) (m : MsgType) (to : NodeId)
    → IsCounted s
    → IsCounted (add_to_waiters s i m to).0
unfolding add_to_waiters wait_first start_wait overlap_by_unlock overlap_by_cancel add_ref
add_to_waiters-IsCounted s i m to v = record {
  exact = λ j. ground (arith, v.exact j, v.exact i);
  listed = λ j. ground (arith, v.listed j, v.exact i, elem-cons j i s.waiters);
  held = λ j. ground (arith, v.held j, v.held i);
  sound = ground (arith, v.sound, v.exact i);
}

-- One reply of lock `i` has come that is still counted.
pub record Owes (s : State) (i : ℕ) : Type 0 where
  pub exact : (j : ℕ) → (s.lkbs j).wait_count ≡ due (s.lkbs j) + one_if (i == j)
  pub listed : (j : ℕ) → elem j s.waiters ≡ not ((s.lkbs j).wait_count == 0)
  pub held : (j : ℕ) → (s.lkbs j).wait_count < (s.lkbs j).ref
  pub sound : s.bug ≡ false

out_del-IsCounted : (s : State) (i : ℕ) → Owes s i → IsCounted (out_del s i)
unfolding out_del end_wait drop_ref
out_del-IsCounted s i v = record {
  exact = λ j. ground (arith, v.exact j, v.exact i);
  listed = λ j. ground (arith, v.listed j, v.listed i, v.exact i, elem-list_del i j s.waiters);
  held = λ j. ground (arith, v.held j, v.held i, v.exact i);
  sound = ground (arith, v.sound, v.exact i, v.held i);
}

-- The operation that waited is given up as well.
given_up-Owes :
    (s : State) (i : ℕ)
    → is_waiting (s.lkbs i) ≡ true
    → Owes s i
    → Owes (unhold_lkb (modify s i give_up_wait) i) i
unfolding give_up_wait drop_ref
given_up-Owes s i w v = record {
  exact = λ j. ground (arith, v.exact j, v.exact i);
  listed = λ j. ground (arith, v.listed j, v.listed i, v.exact i);
  held = λ j. ground (arith, v.held j, v.held i, v.exact i);
  sound = ground (arith, v.sound, v.exact i, v.held i);
}

out_del_overlap-IsCounted : (s : State) (i : ℕ) → Owes s i → IsCounted (out_del_overlap s i)
unfolding out_del_overlap
out_del_overlap-IsCounted s i v = elim (Bool-cases (is_waiting (s.lkbs i))) [
  | inl w ↦ rw (w, out_del_overlap) (out_del-IsCounted _ i (given_up-Owes s i w v))
  | inr w ↦ rw (w, out_del_overlap) (out_del-IsCounted s i v)
]

cleared-unlock-Owes :
    (s : State) (i : ℕ)
    → (s.lkbs i).overlap_unlock ≡ true
    → IsCounted s
    → Owes (modify s i clear_overlap_unlock) i
unfolding clear_overlap_unlock
cleared-unlock-Owes s i h v = record {
  exact = λ j. ground (arith, v.exact j);
  listed = λ j. ground (arith, v.listed j);
  held = λ j. ground (arith, v.held j);
  sound = v.sound;
}

cleared-cancel-Owes :
    (s : State) (i : ℕ)
    → (s.lkbs i).overlap_cancel ≡ true
    → IsCounted s
    → Owes (modify s i clear_overlap_cancel) i
unfolding clear_overlap_cancel
cleared-cancel-Owes s i h v = record {
  exact = λ j. ground (arith, v.exact j);
  listed = λ j. ground (arith, v.listed j);
  held = λ j. ground (arith, v.held j);
  sound = v.sound;
}

cleared-wait-Owes :
    (s : State) (i : ℕ)
    → is_waiting (s.lkbs i) ≡ true
    → IsCounted s
    → Owes (modify s i clear_wait_type) i
unfolding clear_wait_type
cleared-wait-Owes s i h v = record {
  exact = λ j. ground (arith, v.exact j);
  listed = λ j. ground (arith, v.listed j);
  held = λ j. ground (arith, v.held j);
  sound = v.sound;
}

still_waiting :
    (s : State) (i : ℕ)
    → is_waiting (s.lkbs i) ≡ true
    → is_waiting (update s.lkbs i (clear_overlap_cancel (s.lkbs i)) i) ≡ true
unfolding clear_overlap_cancel
still_waiting s i h = ground arith

if-IsCounted :
    (x y : State × Errno) (b : Bool)
    → (b ≡ true → IsCounted x.0)
    → (b ≡ false → IsCounted y.0)
    → IsCounted ((if b then x else y).0)
if-IsCounted x y true f g = f refl
if-IsCounted x y false f g = g refl

-- If the counts of outstanding replies are exact, they are exact after _remove_from_waiters,
-- whatever its answer and with no assertion failed, if a reply to a notification comes only for
-- a lock that waits.
pub remove_waiter-IsCounted :
    (s : State) (i : ℕ) (m : MsgType) (granted : Bool)
    → (is_notify_reply m ≡ true → is_waiting (s.lkbs i) ≡ true)
    → IsCounted s
    → IsCounted (remove_waiter s i m granted).0
unfolding remove_waiter
remove_waiter-IsCounted s i m granted n v =
    if-IsCounted _ _ (is_unlock_reply m && l.overlap_unlock)
      (λ h. out_del_overlap-IsCounted _ i (cleared-unlock-Owes s i (ground arith) v))
      λ _.
        if-IsCounted _ _ (is_cancel_reply m && l.overlap_cancel)
          (λ h. out_del_overlap-IsCounted _ i (cleared-cancel-Owes s i (ground arith) v))
          λ _.
            if-IsCounted _ _ (is_cancel_reply m && not (waits_for is_cancel l)) (λ _. v)
              λ _.
                if-IsCounted _ _
                  (is_convert_reply m && waits_for is_convert l && granted && l.overlap_cancel)
                  (λ h. out_del-IsCounted _ i (
                    given_up-Owes _ i (still_waiting s i (ground arith))
                      (cleared-cancel-Owes s i (ground arith) v)))
                  λ _.
                    if-IsCounted _ _ (is_waiting l || is_notify_reply m)
                      (λ h. out_del-IsCounted _ i (cleared-wait-Owes s i (ground arith) v)) (λ _. v)
  where
    l : Lkb
    l = s.lkbs i
