-- ===== src/Queue/Members.antt =====
-- Which locks stand on which queue, before and after each operation of `lockify.Queue`.
use lockify.Base.{
  ℕ, ◌≡◌, refl, Bool, true, false, ◌||◌, List, [], ◌∷◌, elem, elem-append, elem-one, elem-cons,
  ◌==◌, arith, ◌≢◌,
}
use lockify.Modes.{Mode, modes_compat}
use lockify.State.{Lkb}
use lockify.Queue.{lkb_add_ordered, list_add_at, queue_conflict}

pub elem-lkb_add_ordered :
    (lkbs : ℕ → Lkb) (i j : ℕ) (m : Mode) (q : List ℕ)
    → elem j (lkb_add_ordered lkbs i m q) ≡ ((i == j) || elem j q)
unfolding lkb_add_ordered elem
elem-lkb_add_ordered lkbs i j m [] = refl
elem-lkb_add_ordered lkbs i j m (x ∷ q) = ground (arith, elem-lkb_add_ordered lkbs i j m q)

pub elem-list_add_at :
    (b : Bool) (i j : ℕ) (q : List ℕ) → elem j (list_add_at b i q) ≡ ((i == j) || elem j q)
unfolding list_add_at
elem-list_add_at true i j q = elem-cons j i q
elem-list_add_at false i j q = ground (arith, elem-append j q (i ∷ []), elem-one j i)

-- A lock of the queue other than `i` is compatible with what `i` asks for, if there is no conflict.
pub queue_conflict-compat :
    (lkbs : ℕ → Lkb) (q : List ℕ) (i j : ℕ)
    → queue_conflict lkbs q i ≡ false
    → elem j q ≡ true
    → i ≢ j
    → modes_compat (lkbs j).grmode (lkbs i).rqmode ≡ true
unfolding queue_conflict elem
queue_conflict-compat lkbs [] i j h e ne = ground arith
queue_conflict-compat lkbs (x ∷ q) i j h e ne = ground (arith, queue_conflict-compat lkbs q i j)
