-- ===== src/Pending/Told.antt =====
-- Every lock that stands in the way is told: fs/dlm/lock.c 2458-2497.
use lockify.Base.{
  ℕ, ◌≡◌, refl, ap, Bool, true, false, ◌&&◌, if◌then◌else◌, arith, elem, elem-cons, ◌==◌, ==-refl,
  ==_iff, List, [], ◌∷◌, Bool-cases, inl, inr, ◌⊎◌, update,
}
use lockify.Modes.{Mode, iv, ex, mode_lt, modes_compat}
use lockify.State.{State, Lkb, modify}
use lockify.State.Set.{set_highbast}
use lockify.Wire.{queue_bast, send_bast}
use lockify.Pending.{walk, bast_one, modes_require_bast, send_bast_queue, send_blocking_asts}

-- `j` has been sent a blocking callback for the mode that `i` asks for, or for a stronger one.
abbrev pub IsTold : (ℕ → Lkb) → ℕ → ℕ → Type 0
IsTold f i j = mode_lt (f j).highbast (f i).rqmode ≡ false

-- `j` has a function for blocking callbacks, and holds a mode that excludes what `i` asks for.
pub record Blocks (f : ℕ → Lkb) (i j : ℕ) : Type 0 where
  pub other : (j == i) ≡ false
  pub bastfn : (f j).bastfn ≡ true
  pub excludes : modes_compat (f j).grmode (f i).rqmode ≡ false

below_ex : (a m : Mode) → mode_lt a ex ≡ false → mode_lt a m ≡ false
below_ex iv iv h = ground arith
below_ex _ _ h = ground arith

mode_lt_self : (m : Mode) → mode_lt m m ≡ false
mode_lt_self iv = refl
mode_lt_self _ = refl

not_required :
    (gr rq : Lkb)
    → modes_compat gr.grmode rq.rqmode ≡ false
    → modes_require_bast gr rq ≡ false
    → mode_lt gr.highbast rq.rqmode ≡ false
unfolding modes_require_bast
not_required gr rq c h = ground (arith, below_ex gr.highbast rq.rqmode)

pub queue_bast-lkbs : (s : State) (i : ℕ) (m : Mode) → (queue_bast s i m).lkbs ≡ s.lkbs
unfolding queue_bast send_bast
queue_bast-lkbs s i m =
    lkbs-if s _ _ (s.lkbs i).mstcpy (lkbs-if s _ _ (s.env.get_mhandle s.mhandles) refl refl) refl
  where
    lkbs-if :
        (s x y : State) (b : Bool)
        → x.lkbs ≡ s.lkbs
        → y.lkbs ≡ s.lkbs
        → (if b then x else y).lkbs ≡ s.lkbs
    lkbs-if s x y true f g = f
    lkbs-if s x y false f g = g

-- What a step of the walk does to the locks.
abbrev pub bast_written : (ℕ → Lkb) → ℕ → ℕ → ℕ → Lkb
bast_written f i g =
    if g == i
    then f
    else if (f g).bastfn && modes_require_bast (f g) (f i)
    then update f g (set_highbast (f i).rqmode (f g))
    else f

pub bast_one-lkbs : (s : State) (i g : ℕ) → (bast_one i s g).lkbs ≡ bast_written s.lkbs i g
unfolding bast_one
bast_one-lkbs s i g = pick (g == i) ((s.lkbs g).bastfn && modes_require_bast (s.lkbs g) (s.lkbs i))
  where
    rq : Mode
    rq = (s.lkbs i).rqmode

    pick :
        (b c : Bool)
        → (if b then s else if c then modify (queue_bast s g rq) g (set_highbast rq) else s).lkbs
          ≡ (if b
              then s.lkbs
              else if c
              then update s.lkbs g (set_highbast rq (s.lkbs g))
              else s.lkbs)
    pick true c = refl
    pick false true =
        ap (λ (f : ℕ → Lkb). update f g (set_highbast rq (f g))) (queue_bast-lkbs s g rq)
    pick false false = refl

pub written-Blocks : (f : ℕ → Lkb) (i j g : ℕ) → Blocks f i j → Blocks (bast_written f i g) i j
unfolding set_highbast
written-Blocks f i j g b = record {
  other = b.other;
  bastfn = ground (arith, b.bastfn);
  excludes = ground (arith, b.excludes);
}

written-IsTold : (f : ℕ → Lkb) (i j g : ℕ) → IsTold f i j → IsTold (bast_written f i g) i j
unfolding set_highbast
written-IsTold f i j g t = ground (arith, mode_lt_self (f i).rqmode, t)

tells : (f : ℕ → Lkb) (i j : ℕ) → Blocks f i j → IsTold (bast_written f i j) i j
unfolding set_highbast
tells f i j b = ground (
  arith,
  b.other,
  b.bastfn,
  mode_lt_self (f i).rqmode,
  not_required (f j) (f i) b.excludes,
  ==-refl j,
)

walk-IsTold :
    (q : List ℕ) (s : State) (i j : ℕ)
    → Blocks s.lkbs i j
    → IsTold s.lkbs i j ⊎ (elem j q ≡ true)
    → IsTold (walk (bast_one i) s q).lkbs i j
unfolding walk elem
walk-IsTold [] s i j b (inl t) = t
walk-IsTold [] s i j b (inr e) = absurd (ground arith)
walk-IsTold (g ∷ q) s i j b h =
    walk-IsTold q (bast_one i s g) i j (rw (bast_one-lkbs s i g) (written-Blocks s.lkbs i j g b))
      (after h (Bool-cases (g == j)))
  where
    after :
        IsTold s.lkbs i j ⊎ (elem j (g ∷ q) ≡ true)
        → ((g == j) ≡ true) ⊎ ((g == j) ≡ false)
        → IsTold (bast_one i s g).lkbs i j ⊎ (elem j q ≡ true)
    after (inl t) w = inl (rw (bast_one-lkbs s i g) (written-IsTold s.lkbs i j g t))
    after (inr e) (inl same) =
        inl (rw (bast_one-lkbs s i g, (==_iff g j).0 same) (tells s.lkbs i j b))
    after (inr e) (inr ne) = inr (ground (arith, elem-cons j g q))

-- After send_blocking_asts for a lock, each other lock of the grant queue that has a blocking
-- function and holds a mode that excludes what is asked for has been sent a blocking callback
-- for that mode or a stronger one.
pub send_blocking_asts-IsTold :
    (s : State) (i j : ℕ)
    → Blocks s.lkbs i j
    → elem j s.rsb.grantqueue ≡ true
    → IsTold (send_blocking_asts s i).lkbs i j
unfolding send_blocking_asts send_bast_queue
send_blocking_asts-IsTold s i j b e = walk-IsTold s.rsb.grantqueue s i j b (inr e)
