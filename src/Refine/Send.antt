-- ===== src/Refine/Send.antt =====
-- Waiting for replies and sending requests leave modes and queues alone.
use lockify.Base.{
  ℕ, ◌≡◌, refl, Bool, true, false, not, ◌&&◌, ◌||◌, if◌then◌else◌, ◌==◌, Option, none, some,
}
use lockify.State.Events.{MsgType, NodeId, node, Errno, is_success, notify_msg, lookup_msg}
use lockify.State.{State, Lkb, modify, dlm_assert}
use lockify.State.Set.{add_ref, hold_lkb, unhold_lkb, put_lkb, add_child, set_nodeid}
use lockify.Waiters.{
  is_waiting, waits_for, is_unlock, is_cancel, is_convert, is_unlock_reply, is_cancel_reply,
  is_convert_reply, is_notify_reply, overlap_by_unlock, overlap_by_cancel, start_wait, wait_first,
  add_to_waiters, clear_overlap_unlock, clear_overlap_cancel, give_up_wait, clear_wait_type,
  end_wait, out_del, out_del_overlap, remove_waiter, remove_from_waiters,
}
use lockify.Send.{transmit, send_common, send_lookup, send_notify, join_parent, take_back}
use lockify.Refine.Frame.{Still-refl, Still-trans, update-Still, hold-Still, unhold-Still}
use lockify.Refine.Quiet.{Quiet, alike, Quiet-refl, Quiet-trans}

pub modify-Quiet :
    (s : State) (i : ℕ) (f : Lkb → Lkb)
    → (f (s.lkbs i)).grmode ≡ (s.lkbs i).grmode
    → (f (s.lkbs i)).rqmode ≡ (s.lkbs i).rqmode
    → (f (s.lkbs i)).exflags.expedite ≡ (s.lkbs i).exflags.expedite
    → (f (s.lkbs i)).status ≡ (s.lkbs i).status
    → Quiet s (modify s i f)
modify-Quiet s i f g r x t = alike s _ (update-Still s.lkbs i _ g r x t) refl refl refl

pub hold-Quiet : (s : State) (i : ℕ) → Quiet s (hold_lkb s i)
hold-Quiet s i = alike s _ (hold-Still s.lkbs i) refl refl refl

pub unhold-Quiet : (s : State) (i : ℕ) → Quiet s (unhold_lkb s i)
unhold-Quiet s i = alike s _ (unhold-Still s.lkbs i) refl refl refl

-- Between two values that carry a state.
pub choose-Quiet :
    {S : Type 0} (p : S → State) {s : State} (x y : S) (b : Bool)
    → Quiet s (p x)
    → Quiet s (p y)
    → Quiet s (p (if b then x else y))
choose-Quiet p x y true f g = f
choose-Quiet p x y false f g = g

abbrev pub state_of : State × Errno → State
state_of r = r.0

add_to_waiters-Quiet :
    (s : State) (i : ℕ) (m : MsgType) (to : NodeId) → Quiet s (add_to_waiters s i m to).0
unfolding add_to_waiters wait_first start_wait overlap_by_unlock overlap_by_cancel
add_to_waiters-Quiet s i m to =
    choose-Quiet state_of _ _ (l.overlap_unlock || (l.overlap_cancel && is_cancel m)) (Quiet-refl s)
      (choose-Quiet state_of _ _ (is_waiting l || l.overlap_cancel)
        (choose-Quiet state_of _ _ (is_unlock m)
          (Quiet-trans (modify-Quiet s i overlap_by_unlock refl refl refl refl) (hold-Quiet _ i))
          (choose-Quiet state_of _ _ (is_cancel m)
            (Quiet-trans (modify-Quiet s i overlap_by_cancel refl refl refl refl) (hold-Quiet _ i))
            (Quiet-refl s)))
        (alike s _
          (Still-trans (update-Still s.lkbs i (start_wait m to l) refl refl refl refl)
            (hold-Still _ i))
          refl refl refl))
  where
    l : Lkb
    l = s.lkbs i

out_del-Quiet : (s : State) (i : ℕ) → Quiet s (out_del s i)
unfolding out_del end_wait
out_del-Quiet s i =
    Quiet-trans
      (Quiet-trans (alike s t (update-Still s.lkbs i _ refl refl refl refl) refl refl refl) (
        choose-Quiet (λ (s : State). s) _ _ ((t.lkbs i).wait_count == 0)
          (alike t _ (Still-refl t.lkbs) refl refl refl) (Quiet-refl t)))
      (unhold-Quiet _ i)
  where
    t : State
    t = modify (dlm_assert (not ((s.lkbs i).wait_count == 0)) s) i end_wait

given_up-Quiet : (s : State) (i : ℕ) → Quiet s (unhold_lkb (modify s i give_up_wait) i)
unfolding give_up_wait
given_up-Quiet s i =
    Quiet-trans (modify-Quiet s i give_up_wait refl refl refl refl) (unhold-Quiet _ i)

out_del_overlap-Quiet : (s : State) (i : ℕ) → Quiet s (out_del_overlap s i)
unfolding out_del_overlap
out_del_overlap-Quiet s i =
    choose-Quiet (λ (s : State). s) _ _ (is_waiting (s.lkbs i))
      (Quiet-trans (given_up-Quiet s i) (out_del-Quiet _ i)) (out_del-Quiet s i)

cleared-unlock-Quiet : (s : State) (i : ℕ) → Quiet s (modify s i clear_overlap_unlock)
unfolding clear_overlap_unlock
cleared-unlock-Quiet s i = modify-Quiet s i clear_overlap_unlock refl refl refl refl

cleared-cancel-Quiet : (s : State) (i : ℕ) → Quiet s (modify s i clear_overlap_cancel)
unfolding clear_overlap_cancel
cleared-cancel-Quiet s i = modify-Quiet s i clear_overlap_cancel refl refl refl refl

cleared-wait-Quiet : (s : State) (i : ℕ) → Quiet s (modify s i clear_wait_type)
unfolding clear_wait_type
cleared-wait-Quiet s i = modify-Quiet s i clear_wait_type refl refl refl refl

pub remove_waiter-Quiet :
    (s : State) (i : ℕ) (m : MsgType) (granted : Bool) → Quiet s (remove_waiter s i m granted).0
unfolding remove_waiter
remove_waiter-Quiet s i m granted =
    choose-Quiet state_of _ _ (is_unlock_reply m && l.overlap_unlock)
      (Quiet-trans (cleared-unlock-Quiet s i) (out_del_overlap-Quiet _ i))
      (choose-Quiet state_of _ _ (is_cancel_reply m && l.overlap_cancel)
        (Quiet-trans (cleared-cancel-Quiet s i) (out_del_overlap-Quiet _ i))
        (choose-Quiet state_of _ _ (is_cancel_reply m && not (waits_for is_cancel l)) (Quiet-refl s)
          (choose-Quiet state_of _ _
            (is_convert_reply m && waits_for is_convert l && granted && l.overlap_cancel)
            (Quiet-trans (cleared-cancel-Quiet s i)
              (Quiet-trans (given_up-Quiet _ i) (out_del-Quiet _ i)))
            (choose-Quiet state_of _ _ (is_waiting l || is_notify_reply m)
              (Quiet-trans (cleared-wait-Quiet s i) (out_del-Quiet _ i)) (Quiet-refl s)))))
  where
    l : Lkb
    l = s.lkbs i

pub remove_from_waiters-Quiet :
    (s : State) (i : ℕ) (m : MsgType) → Quiet s (remove_from_waiters s i m).0
unfolding remove_from_waiters
remove_from_waiters-Quiet s i m = remove_waiter-Quiet s i m false

take_back-Quiet : (s : State) (i : ℕ) (m : Option MsgType) → Quiet s (take_back s i m)
take_back-Quiet s i none = Quiet-refl s
take_back-Quiet s i (some m) = remove_from_waiters-Quiet s i m

transmit-Quiet :
    (s : State) (i : ℕ) (m : MsgType) (to : NodeId) (reply : Option MsgType)
    → Quiet s (transmit s i m to reply).0
unfolding transmit
transmit-Quiet s i m to reply =
    choose-Quiet state_of _ _ (s.env.get_mhandle s.mhandles)
      (alike s _ (Still-refl s.lkbs) refl refl refl)
      (Quiet-trans (alike s _ (Still-refl s.lkbs) refl refl refl) (take_back-Quiet _ i reply))

pub send_common-Quiet : (s : State) (i : ℕ) (m : MsgType) → Quiet s (send_common s i m).0
unfolding send_common
send_common-Quiet s i m =
    choose-Quiet state_of _ _ (is_success (add_to_waiters s i m s.rsb.res_nodeid).1)
      (Quiet-trans (add_to_waiters-Quiet s i m _) (transmit-Quiet _ i m _ _))
      (add_to_waiters-Quiet s i m _)

pub send_lookup-Quiet : (s : State) (i : ℕ) → Quiet s (send_lookup s i).0
unfolding send_lookup
send_lookup-Quiet s i =
    choose-Quiet state_of _ _ (is_success (add_to_waiters s i lookup_msg (node s.env.dir_nodeid)).1)
      (Quiet-trans (add_to_waiters-Quiet s i _ _) (transmit-Quiet _ i _ _ _))
      (add_to_waiters-Quiet s i _ _)

pub put_lkb-Quiet : (s : State) (i : ℕ) → Quiet s (put_lkb s i)
unfolding put_lkb
put_lkb-Quiet s i =
    choose-Quiet (λ (s : State). s) _ _ ((s.lkbs i).ref == 1)
      (alike s _ (unhold-Still s.lkbs i) refl refl refl)
      (alike s _ (unhold-Still s.lkbs i) refl refl refl)

child-Quiet : (s : State) (p i : ℕ) → Quiet s (modify (modify s p add_ref) p (add_child i))
unfolding add_child
child-Quiet s p i =
    Quiet-trans (hold-Quiet s p) (modify-Quiet _ p (add_child i) refl refl refl refl)

join_parent-Quiet : (s : State) (i : ℕ) → Quiet s (join_parent s i).0
unfolding join_parent
join_parent-Quiet s i = choose-Quiet state_of _ _ ((s.lkbs i).parent_lkid == 0) (Quiet-refl s) (
    choose-Quiet state_of _ _ (not (s.present (s.lkbs i).parent_lkid)) (Quiet-refl s)
      (Quiet-trans (child-Quiet s _ i) (put_lkb-Quiet _ _)))

pub send_notify-Quiet : (s : State) (i : ℕ) → Quiet s (send_notify s i).0
unfolding send_notify
send_notify-Quiet s i =
    choose-Quiet state_of _ _ (not (is_success (join_parent s i).1)) (join_parent-Quiet s i) (
      choose-Quiet state_of _ _
        (is_success (add_to_waiters t i notify_msg (node s.env.dir_nodeid)).1)
        (Quiet-trans q (transmit-Quiet _ i _ _ _)) q)
  where
    t : State
    t = (join_parent s i).0

    q : Quiet s (add_to_waiters t i notify_msg (node s.env.dir_nodeid)).0
    q = Quiet-trans (join_parent-Quiet s i) (add_to_waiters-Quiet t i _ _)

pub set_nodeid-Quiet : (s : State) (i : ℕ) (n : NodeId) → Quiet s (modify s i (set_nodeid n))
unfolding set_nodeid
set_nodeid-Quiet s i n = modify-Quiet s i (set_nodeid n) refl refl refl refl
