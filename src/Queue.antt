-- ===== src/Queue.antt =====
-- The grant, convert and wait queues of a resource: fs/dlm/lock.c 1344-1409 and 2001-2024.
pub mod Members
pub mod Placed
use lockify.Base.{
  ℕ, Bool, true, false, not, List, [], ◌∷◌, ◌++◌, if◌then◌else◌, ◌==◌, list_del, ◌-◌,
}
use lockify.Modes.{Mode, mode_lt, modes_compat}
use lockify.State.Events.{LkSts, is_off}
use lockify.State.{State, Lkb, Rsb, put_rsb, modify, dlm_assert}
use lockify.State.Set.{hold_lkb, unhold_lkb, set_status}

-- Before the first entry whose requested mode is below `mode`, or at the tail.
unfoldable pub lkb_add_ordered : (ℕ → Lkb) → ℕ → Mode → List ℕ → List ℕ
lkb_add_ordered lkbs new mode [] = new ∷ []
lkb_add_ordered lkbs new mode (iter ∷ head) =
    if mode_lt (lkbs iter).rqmode mode
    then new ∷ iter ∷ head
    else iter ∷ lkb_add_ordered lkbs new mode head

-- `list_add` for HEADQUE, `list_add_tail` otherwise.
unfoldable pub list_add_at : Bool → ℕ → List ℕ → List ℕ
list_add_at headque i q = if headque then i ∷ q else q ++ i ∷ []

unfoldable pub enqueue : State → ℕ → LkSts → State
enqueue s i LkSts.off = dlm_assert false s
enqueue s i LkSts.waiting =
    put_rsb s
      (record s.rsb { waitqueue = list_add_at (s.lkbs i).exflags.headque i s.rsb.waitqueue })
enqueue s i LkSts.granted =
    put_rsb s
      (record s.rsb { grantqueue = lkb_add_ordered s.lkbs i (s.lkbs i).grmode s.rsb.grantqueue })
enqueue s i LkSts.convert =
    put_rsb s
      (record s.rsb { convertqueue = list_add_at (s.lkbs i).exflags.headque i s.rsb.convertqueue })

unfoldable pub add_lkb : State → ℕ → LkSts → State
add_lkb s i status =
    let held = dlm_assert (is_off (s.lkbs i).status) (hold_lkb s i) in
    enqueue (modify held i (set_status status)) i status

-- `list_del` takes the lock out of the one queue on which it stands.
unfoldable pub unqueue : State → ℕ → State
unqueue s i = put_rsb s (record s.rsb {
  grantqueue = list_del i s.rsb.grantqueue;
  convertqueue = list_del i s.rsb.convertqueue;
  waitqueue = list_del i s.rsb.waitqueue;
})

unfoldable pub del_lkb : State → ℕ → State
del_lkb s i = unhold_lkb (unqueue (modify s i (set_status LkSts.off)) i) i

unfoldable pub move_lkb : State → ℕ → LkSts → State
move_lkb s i status = unhold_lkb (add_lkb (del_lkb (hold_lkb s i) i) i status) i

-- On an empty queue the source would read past the list head; it asks only of locks on the queue.
unfoldable pub first_in_list : ℕ → List ℕ → Bool
first_in_list i [] = false
first_in_list i (first ∷ rest) = i == first

-- Some other lock of the queue has a granted mode that excludes the requested mode of `i`.
unfoldable pub queue_conflict : (ℕ → Lkb) → List ℕ → ℕ → Bool
queue_conflict lkbs [] i = false
queue_conflict lkbs (this ∷ rest) i =
    let later = queue_conflict lkbs rest i in
    if this == i
    then later
    else if not (modes_compat (lkbs this).grmode (lkbs i).rqmode)
    then true
    else later
