-- ===== src/Pending/Measure.antt =====
-- How much is left to grant on a convert queue, for `grant_pending_convert`, fs/dlm/lock.c
-- 2314-2381.
use lockify.Base.{
  ℕ, ◌+◌, ◌≤◌, ◌≡◌, refl, true, false, if◌then◌else◌, List, [], ◌∷◌, elem, list_del, elem-list_del,
  length, arith, ◌≢◌,
}
use lockify.Modes.{iv, mode_eq}
use lockify.State.{Lkb}

-- One for each entry, and one more while its request is not done.
pub weigh : (ℕ → Lkb) → List ℕ → ℕ
weigh f [] = 0
weigh f (x ∷ q) = (if mode_eq (f x).rqmode iv then 1 else 2) + weigh f q

-- No entry twice.
abbrev pub Distinct : List ℕ → Type 0
Distinct [] = Unit {0}
Distinct (x ∷ q) = (elem x q ≡ false) × Distinct q

pub weigh-le : (f : ℕ → Lkb) (q : List ℕ) → weigh f q ≤ length q + length q
unfolding weigh
weigh-le f [] = omega arith
weigh-le f (x ∷ q) = ground (arith, weigh-le f q)

pub weigh-same :
    (f g : ℕ → Lkb) (q : List ℕ) → ((j : ℕ) → (g j).rqmode ≡ (f j).rqmode) → weigh g q ≡ weigh f q
unfolding weigh
weigh-same f g [] e = refl
weigh-same f g (x ∷ q) e = rw (e x, weigh-same f g q e)

-- A grant: the requests other than that of lock `i` stay, and lock `i` leaves the queue.
pub weigh-list_del :
    (f g : ℕ → Lkb) (i : ℕ) (q : List ℕ)
    → ((j : ℕ) → i ≢ j → (g j).rqmode ≡ (f j).rqmode)
    → weigh g (list_del i q) + (if elem i q then 1 else 0) ≤ weigh f q
unfolding weigh list_del elem
weigh-list_del f g i [] e = omega arith
weigh-list_del f g i (x ∷ q) e = ground (arith, weigh-list_del f g i q e, e x)

-- Or lock `i` stays, and its request is done.
pub weigh-cleared :
    (f g : ℕ → Lkb) (i : ℕ) (q : List ℕ)
    → ((j : ℕ) → i ≢ j → (g j).rqmode ≡ (f j).rqmode)
    → mode_eq (f i).rqmode iv ≡ false
    → (g i).rqmode ≡ iv
    → weigh g q + (if elem i q then 1 else 0) ≤ weigh f q
unfolding weigh elem
weigh-cleared f g i [] e n c = omega arith
weigh-cleared f g i (x ∷ q) e n c = ground (arith, weigh-cleared f g i q e n c, e x)

-- No lock has a request that it did not have.
pub weigh_mono :
    (f g : ℕ → Lkb) (q : List ℕ)
    → ((j : ℕ) → mode_eq (f j).rqmode iv ≡ true → mode_eq (g j).rqmode iv ≡ true)
    → weigh g q ≤ weigh f q
unfolding weigh
weigh_mono f g [] e = omega arith
weigh_mono f g (x ∷ q) e = ground (arith, weigh_mono f g q e, e x)

pub list_del-Distinct : (i : ℕ) (q : List ℕ) → Distinct q → Distinct (list_del i q)
unfolding list_del
list_del-Distinct i [] d = tt
list_del-Distinct i (x ∷ q) d = ground (arith, list_del-Distinct i q d.1, elem-list_del i x q)
