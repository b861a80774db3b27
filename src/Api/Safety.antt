-- ===== src/Api/Safety.antt =====
-- Whatever the users of a resource ask for, its locks hold compatible modes: fs/dlm/lock.c
-- 3157-3390.
use lockify.Base.{ℕ, Bool, Option, List, [], ◌∷◌}
use lockify.State.Flags.{LkFlags}
use lockify.State.{State}
use lockify.Args.{IntMode, Lksb}
use lockify.Api.{dlm_lock, dlm_unlock}
use lockify.Refine.Relation.{Refines}
use lockify.Api.Calls.{IsSafe, Refines-IsSafe, after_unlock, dlm_lock-Refines, dlm_unlock-Refines}

-- The state after a call of a user: `dlm_lock` for a lock and a resource that are there, and
-- `dlm_unlock`.
pub data Call : Type 0 where
  locks :
      (mode : IntMode) (lksb : Option Lksb) (f : LkFlags) (namelen : ℕ) (ast : Bool) (astparam : ℕ)
      → (bast : Bool) (parent : ℕ) → Call
  unlocks : (f : LkFlags) (astarg : ℕ) (signal : Bool) → Call

unfoldable pub perform : State → ℕ × Call → State
perform s (i, locks mode lksb f namelen ast astparam bast parent) =
    (dlm_lock s i mode lksb f namelen ast astparam bast parent).0
perform s (i, unlocks f astarg signal) = after_unlock s (dlm_unlock s i f astarg signal)

unfoldable pub run : State → List (ℕ × Call) → State
run s [] = s
run s (c ∷ cs) = run (perform s c) cs

pub perform-Refines : (s : State) (c : ℕ × Call) → IsSafe s → Refines s (perform s c)
unfolding perform
perform-Refines s (i, locks mode lksb f n ast astparam bast parent) v =
    dlm_lock-Refines s i mode lksb f n ast astparam bast parent v
perform-Refines s (i, unlocks f astarg signal) v = dlm_unlock-Refines s i f astarg signal v.inv

-- After any history of calls of dlm_lock and dlm_unlock on a resource, from a safe state, the
-- invariant of the resource holds and any two of its locks hold compatible modes.
pub run-IsSafe : (s : State) (cs : List (ℕ × Call)) → IsSafe s → IsSafe (run s cs)
unfolding run
run-IsSafe s [] v = v
run-IsSafe s (c ∷ cs) v = run-IsSafe (perform s c) cs (Refines-IsSafe v (perform-Refines s c v))
