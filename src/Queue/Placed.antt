-- ===== src/Queue/Placed.antt =====
-- Each lock stands on the queue that its status names, and there once: fs/dlm/lock.c 1344-1409.
use lockify.Base.{
  ℕ, ◌≡◌, refl, ◌∙◌, Bool, true, false, List, [], ◌∷◌, ◌++◌, elem, elem-list_del, elem-append,
  elem-one, ==-refl, arith,
}
use lockify.Modes.{Mode}
use lockify.State.Events.{LkSts, is_off, is_granted}
use lockify.State.{State, Lkb}
use lockify.State.Set.{add_ref, drop_ref, set_status, hold_lkb, unhold_lkb}
use lockify.Pending.Measure.{Distinct, list_del-Distinct}
use lockify.Queue.{lkb_add_ordered, list_add_at, enqueue, unqueue, add_lkb, del_lkb, move_lkb}
use lockify.Queue.Members.{elem-lkb_add_ordered, elem-list_add_at}

abbrev pub is_convert_sts : LkSts → Bool
is_convert_sts LkSts.convert = true
is_convert_sts _ = false

abbrev pub is_waiting_sts : LkSts → Bool
is_waiting_sts LkSts.waiting = true
is_waiting_sts _ = false

pub record IsPlaced (s : State) : Type 0 where
  pub granted : (j : ℕ) → elem j s.rsb.grantqueue ≡ is_granted (s.lkbs j).status
  pub converting : (j : ℕ) → elem j s.rsb.convertqueue ≡ is_convert_sts (s.lkbs j).status
  pub waiting : (j : ℕ) → elem j s.rsb.waitqueue ≡ is_waiting_sts (s.lkbs j).status
  pub once_granted : Distinct s.rsb.grantqueue
  pub once_converting : Distinct s.rsb.convertqueue
  pub once_waiting : Distinct s.rsb.waitqueue

lkb_add_ordered-Distinct :
    (lkbs : ℕ → Lkb) (i : ℕ) (m : Mode) (q : List ℕ)
    → elem i q ≡ false
    → Distinct q
    → Distinct (lkb_add_ordered lkbs i m q)
unfolding lkb_add_ordered elem
lkb_add_ordered-Distinct lkbs i m [] h d = (refl, tt)
lkb_add_ordered-Distinct lkbs i m (x ∷ q) h d = ground (
  arith,
  lkb_add_ordered-Distinct lkbs i m q (ground arith) d.1,
  elem-lkb_add_ordered lkbs i x m q,
  d.0,
  d.1,
)

append-Distinct : (i : ℕ) (q : List ℕ) → elem i q ≡ false → Distinct q → Distinct (q ++ i ∷ [])
unfolding elem
append-Distinct i [] h d = (refl, tt)
append-Distinct i (x ∷ q) h d = (
  ground (arith, elem-append x q (i ∷ []), elem-one x i, d.0),
  append-Distinct i q (ground arith) d.1,
)

list_add_at-Distinct :
    (b : Bool) (i : ℕ) (q : List ℕ) → elem i q ≡ false → Distinct q → Distinct (list_add_at b i q)
unfolding list_add_at
list_add_at-Distinct true i q h d = (h, d)
list_add_at-Distinct false i q h d = append-Distinct i q h d

-- If each lock stands on the queue of its status, and there once, it does so after add_lkb of a
-- lock that is on no queue to one of the three queues.
pub add_lkb-IsPlaced :
    (s : State) (i : ℕ) (status : LkSts)
    → is_off (s.lkbs i).status ≡ true
    → is_off status ≡ false
    → IsPlaced s
    → IsPlaced (add_lkb s i status)
unfolding add_lkb enqueue add_ref set_status
add_lkb-IsPlaced s i LkSts.granted off on v = record {
  granted = λ j. elem-lkb_add_ordered _ i j _ s.rsb.grantqueue ∙ ground (arith, v.granted j);
  converting = λ j. ground (arith, v.converting j, v.converting i);
  waiting = λ j. ground (arith, v.waiting j, v.waiting i);
  once_granted =
      lkb_add_ordered-Distinct _ i _ s.rsb.grantqueue (ground (arith, v.granted i)) v.once_granted;
  once_converting = v.once_converting;
  once_waiting = v.once_waiting;
}
add_lkb-IsPlaced s i LkSts.convert off on v = record {
  granted = λ j. ground (arith, v.granted j, v.granted i);
  converting = λ j. elem-list_add_at _ i j s.rsb.convertqueue ∙ ground (arith, v.converting j);
  waiting = λ j. ground (arith, v.waiting j, v.waiting i);
  once_granted = v.once_granted;
  once_converting =
      list_add_at-Distinct _ i s.rsb.convertqueue (ground (arith, v.converting i))
        v.once_converting;
  once_waiting = v.once_waiting;
}
add_lkb-IsPlaced s i LkSts.waiting off on v = record {
  granted = λ j. ground (arith, v.granted j, v.granted i);
  converting = λ j. ground (arith, v.converting j, v.converting i);
  waiting = λ j. elem-list_add_at _ i j s.rsb.waitqueue ∙ ground (arith, v.waiting j);
  once_granted = v.once_granted;
  once_converting = v.once_converting;
  once_waiting =
      list_add_at-Distinct _ i s.rsb.waitqueue (ground (arith, v.waiting i)) v.once_waiting;
}
add_lkb-IsPlaced s i LkSts.off off on v = cc

-- A lock that is taken off is on no queue.
pub del_lkb-IsPlaced : (s : State) (i : ℕ) → IsPlaced s → IsPlaced (del_lkb s i)
unfolding del_lkb unqueue drop_ref set_status
del_lkb-IsPlaced s i v = record {
  granted = λ j. ground (arith, elem-list_del i j s.rsb.grantqueue, v.granted j);
  converting = λ j. ground (arith, elem-list_del i j s.rsb.convertqueue, v.converting j);
  waiting = λ j. ground (arith, elem-list_del i j s.rsb.waitqueue, v.waiting j);
  once_granted = list_del-Distinct i s.rsb.grantqueue v.once_granted;
  once_converting = list_del-Distinct i s.rsb.convertqueue v.once_converting;
  once_waiting = list_del-Distinct i s.rsb.waitqueue v.once_waiting;
}

-- A write that leaves the status alone.
pub ref-IsPlaced :
    (s : State) (i : ℕ) → IsPlaced s → IsPlaced (hold_lkb s i) × IsPlaced (unhold_lkb s i)
unfolding add_ref drop_ref
ref-IsPlaced s i v = (
  record {
    granted = λ j. ground (arith, v.granted j);
    converting = λ j. ground (arith, v.converting j);
    waiting = λ j. ground (arith, v.waiting j);
    once_granted = v.once_granted;
    once_converting = v.once_converting;
    once_waiting = v.once_waiting;
  },
  record {
    granted = λ j. ground (arith, v.granted j);
    converting = λ j. ground (arith, v.converting j);
    waiting = λ j. ground (arith, v.waiting j);
    once_granted = v.once_granted;
    once_converting = v.once_converting;
    once_waiting = v.once_waiting;
  },
)

pub deleted-is_off : (s : State) (i : ℕ) → is_off ((del_lkb s i).lkbs i).status ≡ true
unfolding del_lkb unqueue drop_ref set_status
deleted-is_off s i = ground (arith, ==-refl i)

-- If each lock stands on the queue of its status, and there once, it does so after move_lkb to
-- a queue, whatever queue the lock was on.
pub move_lkb-IsPlaced :
    (s : State) (i : ℕ) (status : LkSts)
    → is_off status ≡ false
    → IsPlaced s
    → IsPlaced (move_lkb s i status)
unfolding move_lkb
move_lkb-IsPlaced s i status on v =
    (ref-IsPlaced _ i (
      add_lkb-IsPlaced (del_lkb (hold_lkb s i) i) i status (deleted-is_off (hold_lkb s i) i) on
        (del_lkb-IsPlaced (hold_lkb s i) i (ref-IsPlaced s i v).0))).1
