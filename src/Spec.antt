-- ===== src/Spec.antt =====
-- What a resource promises, apart from queues, messages and callbacks: a table of granted modes in
-- which a lock may take a mode only beside compatible ones, and may give one up at any time. The
-- code of fs/dlm/lock.c is proved to implement it (`lockify.Refine`).
use lockify.Base.{ℕ, ◌≡◌, ◌∙◌, true, ◌≢◌, update, arith}
use lockify.Modes.{Mode, iv, nl, modes_compat}
use lockify.Modes.Compat.{modes_compat-iv, modes_compat-nl, modes_compat_comm}

-- The granted mode of each lock; `iv` is that of a lock that holds nothing.
abbrev pub Table : Type 0
Table = ℕ → Mode

-- Any two locks hold compatible modes.
abbrev pub IsCompatible : Table → Type 0
IsCompatible a = (i j : ℕ) → i ≢ j → modes_compat (a i) (a j) ≡ true

-- Lock `i` takes or gives up a mode, and every other lock keeps its own.
abbrev pub SetsTo : Table → ℕ → Mode → Table → Type 0
SetsTo a i m b = (j : ℕ) → b j ≡ update a i m j

pub data Step (a b : Table) : Type 0 where
  grant :
      (i : ℕ) (m : Mode)
      → ((j : ℕ) → i ≢ j → modes_compat (a j) m ≡ true)
      → SetsTo a i m b
      → Step a b
  release : (i : ℕ) → SetsTo a i iv b → Step a b
  demote : (i : ℕ) → SetsTo a i nl b → Step a b

pub data Steps (a : Table) : Table → Type 0 where
  here : {b : Table} → ((j : ℕ) → b j ≡ a j) → Steps a b
  next : {b c : Table} → Steps a b → Step b c → Steps a c

SetsTo-IsCompatible :
    (a b : Table) (i : ℕ) (m : Mode)
    → ((j : ℕ) → i ≢ j → modes_compat (a j) m ≡ true)
    → SetsTo a i m b
    → IsCompatible a
    → IsCompatible b
SetsTo-IsCompatible a b i m fits e c j k ne =
    ground (arith, e j, e k, fits j, fits k, c j k, modes_compat_comm m (a k))

-- Every step keeps the table compatible.
pub Step-IsCompatible : (a b : Table) → Step a b → IsCompatible a → IsCompatible b
Step-IsCompatible a b (grant i m fits e) c = SetsTo-IsCompatible a b i m fits e c
Step-IsCompatible a b (release i e) c =
    SetsTo-IsCompatible a b i iv (λ j _. modes_compat-iv (a j)) e c
Step-IsCompatible a b (demote i e) c =
    SetsTo-IsCompatible a b i nl (λ j _. modes_compat-nl (a j)) e c

pub Steps-IsCompatible : (a b : Table) → Steps a b → IsCompatible a → IsCompatible b
Steps-IsCompatible a b (here e) c = λ i j ne. ground (arith, e i, e j, c i j ne)
Steps-IsCompatible a c (next {b} r st) k = Step-IsCompatible b c st (Steps-IsCompatible a b r k)

pub Steps-trans : {a b c : Table} → Steps a b → Steps b c → Steps a c
Steps-trans r (here e) = shift r e
  where
    shift : {a b c : Table} → Steps a b → ((j : ℕ) → c j ≡ b j) → Steps a c
    shift (here e') e = here (λ j. e j ∙ e' j)
    shift (next q (grant i m f w)) e = next q (grant i m f (λ j. e j ∙ w j))
    shift (next q (release i w)) e = next q (release i (λ j. e j ∙ w j))
    shift (next q (demote i w)) e = next q (demote i (λ j. e j ∙ w j))
Steps-trans r (next q st) = next (Steps-trans r q) st
