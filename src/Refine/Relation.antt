-- ===== src/Refine/Relation.antt =====
-- The invariant of a resource, and what it is for a piece of code to implement the table.
use lockify.Base.{ℕ, ◌≡◌, refl, sym, ◌∙◌, ap, Bool, true, false, if◌then◌else◌, List, [], ◌∷◌}
use lockify.Modes.{iv, nl, mode_lt}
use lockify.State.{State, Lkb}
use lockify.Spec.{Table, Steps, here, Steps-trans}
use lockify.Pending.{walk}
use lockify.Refine.Frame.{is_listed}
use lockify.Refine.Quiet.{Quiet, Quiet-is_listed}

-- The granted modes of a state.
abbrev pub table : State → Table
table s j = (s.lkbs j).grmode

-- A request that skips the check for conflicts asks for no more than NL: `set_lock_args` sees to it.
abbrev pub IsMild : Lkb → Type 0
IsMild l = l.exflags.expedite ≡ true → mode_lt nl l.rqmode ≡ false

-- The locks that hold a mode are listed, and expedited requests are mild.
pub record Inv (s : State) : Type 0 where
  pub listed : (j : ℕ) → is_listed s.rsb j ≡ false → (s.lkbs j).grmode ≡ iv
  pub mild : (j : ℕ) → IsMild (s.lkbs j)

-- From `s` the code reaches `t` by steps of the table, and keeps the invariant.
pub record Refines (s t : State) : Type 0 where
  pub steps : Steps (table s) (table t)
  pub inv : Inv t

pub Refines-trans : {s t u : State} → Refines s t → (Inv t → Refines t u) → Refines s u
Refines-trans a f = let b = f a.inv in record { steps = Steps-trans a.steps b.steps; inv = b.inv }

pub Refines-refl : (s : State) → Inv s → Refines s s
Refines-refl s v = record { steps = here (λ j. refl); inv = v }

pub Quiet-Refines : {s t : State} → Quiet s t → Inv s → Refines s t
Quiet-Refines {s} {t} q v = record {
  steps = here q.still.keeps.gr;
  inv = record {
    listed = λ j h. q.still.keeps.gr j ∙ v.listed j (sym (Quiet-is_listed q j) ∙ h);
    mild = λ j x. ap (mode_lt nl) (q.still.keeps.rq j) ∙ v.mild j (sym (q.still.keeps.fl j) ∙ x);
  };
}

pub Refines-if :
    {s t u : State} (b : Bool)
    → (b ≡ true → Refines s t)
    → (b ≡ false → Refines s u)
    → Refines s (if b then t else u)
Refines-if true x y = x refl
Refines-if false x y = y refl

-- A walk over a queue implements the table if each of its steps does. `p` is the state in what the
-- walk carries.
pub walk-Refines :
    {S : Type 0} (p : S → State) (step : S → ℕ → S)
    → ((s : S) (i : ℕ) → Inv (p s) → Refines (p s) (p (step s i)))
    → (q : List ℕ) (s : S) → Inv (p s)
    → Refines (p s) (p (walk step s q))
unfolding walk
walk-Refines p step one [] s v = Refines-refl (p s) v
walk-Refines p step one (i ∷ q) s v =
    Refines-trans (one s i v) (walk-Refines p step one q (step s i))
