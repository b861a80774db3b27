-- ===== src/Base/Lists.antt =====
-- Lists of lock ids: the operations of the kernel's doubly linked lists, and membership as a test.
use Prim.Native.Nat.{ℕ, zero, suc, ◌≤◌}
use mathlib.Core.Path.{◌≡◌, refl}
use mathlib.Core.Bool.{Bool, true, false, ◌||◌}
use mathlib.Core.List.{List, [], ◌∷◌, ◌++◌}
use native.Mathlib.Omega.{arith}
use lockify.Base.Tests.{◌==◌, if◌then◌else◌}

module _ {ℓ} {A : Type ℓ} where
  abbrev pub length : List A → ℕ
  length [] = 0
  length (x ∷ xs) = suc (length xs)

  abbrev pub get_or : List A → ℕ → A → A
  get_or [] i d = d
  get_or (x ∷ xs) zero d = x
  get_or (x ∷ xs) (suc i) d = get_or xs i d

  abbrev pub take : ℕ → List A → List A
  take zero xs = []
  take (suc n) [] = []
  take (suc n) (x ∷ xs) = x ∷ take n xs

  abbrev pub drop : ℕ → List A → List A
  drop zero xs = xs
  drop (suc n) [] = []
  drop (suc n) (x ∷ xs) = drop n xs

  -- `list_empty`
  abbrev pub list_empty : List A → Bool
  list_empty [] = true
  list_empty (x ∷ xs) = false

unfoldable pub elem : ℕ → List ℕ → Bool
elem i [] = false
elem i (x ∷ xs) = (x == i) || elem i xs

-- `list_del` of the entry of lock `i`.
unfoldable pub list_del : ℕ → List ℕ → List ℕ
list_del i [] = []
list_del i (x ∷ xs) = if x == i then list_del i xs else x ∷ list_del i xs

pub elem-list_del :
    (i j : ℕ) (xs : List ℕ) → elem j (list_del i xs) ≡ (if i == j then false else elem j xs)
unfolding elem list_del
elem-list_del i j [] = ground arith
elem-list_del i j (x ∷ xs) = ground (arith, elem-list_del i j xs)

pub elem-append : (i : ℕ) (xs ys : List ℕ) → elem i (xs ++ ys) ≡ (elem i xs || elem i ys)
unfolding elem
elem-append i [] ys = refl
elem-append i (x ∷ xs) ys = ground (arith, elem-append i xs ys)

pub elem-one : (i j : ℕ) → elem i (j ∷ []) ≡ (j == i)
unfolding elem
elem-one i j = ground arith

pub elem-cons : (i j : ℕ) (xs : List ℕ) → elem i (j ∷ xs) ≡ ((j == i) || elem i xs)
unfolding elem
elem-cons i j xs = refl

pub list_del_absent : (i : ℕ) (xs : List ℕ) → elem i xs ≡ false → list_del i xs ≡ xs
unfolding elem list_del
list_del_absent i [] h = refl
list_del_absent i (x ∷ xs) h = ground (arith, list_del_absent i xs)

pub length-list_del-le : (i : ℕ) (xs : List ℕ) → length (list_del i xs) ≤ length xs
unfolding list_del
length-list_del-le i [] = omega arith
length-list_del-le i (x ∷ xs) = ground (arith, length-list_del-le i xs)
