-- ===== src/Pending/Passes.antt =====
-- `grant_pending_convert`, fs/dlm/lock.c 2314-2381, comes to an end: each pass that restarts after
-- a grant leaves less to grant, and there is one restart after a demotion at most.
use lockify.Base.{
  ℕ, ◌≡◌, refl, ◌∙◌, Bool, true, false, not, ◌&&◌, if◌then◌else◌, List, [], ◌∷◌, arith, update,
  Bool-cases, ◌⊎◌, inl, inr, ==-refl, Option-cases,
}
use lockify.Modes.{Mode, iv, nl, mode_eq}
use lockify.Modes.Compat.{modes_compat-iv}
use lockify.State.{State, Lkb, modify, can_be_queued}
use lockify.State.Set.{set_highbast, set_rqmode, set_altmode, set_demoted}
use lockify.Queue.{queue_conflict}
use lockify.Wire.{queue_bast}
use lockify.Grant.{
  Verdict, can_be_granted, try_alt, alt_mode, grantable, conversion_deadlock_detect,
}
use lockify.Pending.{bast_deadlock}
use lockify.Pending.Measure.{weigh_mono}
use lockify.Pending.Ends.{IsBusy, Progress, no-Progress}
use lockify.Refine.Quiet.{Quiet, Quiet-refl, Quiet-trans, queue_bast-Quiet, set_highbast-Quiet}

pub Progress-trans :
    {s t u : State} (i : ℕ) (did : Bool)
    → Progress s i t false
    → Progress t i u did
    → Progress s i u did
Progress-trans i did p q = record {
  busy = q.busy;
  less = omega (arith, p.less, q.less);
  others = λ j ne. q.others j ne ∙ p.others j (λ e. cc);
}

demoted-Progress : (s : State) (i : ℕ) → IsBusy s → Progress s i (modify s i set_demoted) false
unfolding set_demoted
demoted-Progress s i b = record {
  busy = record {
    holding = λ j h. ground (arith, b.holding j);
    queued = λ j h. ground (arith, b.queued j);
    distinct = b.distinct;
  };
  less = ground (
    arith,
    weigh_mono s.lkbs (update s.lkbs i (set_demoted (s.lkbs i))) s.rsb.convertqueue
        (λ j h. ground arith),
  );
  others = λ j ne. refl;
}

altered-Progress :
    (s : State) (i : ℕ) (alt : Mode)
    → mode_eq (s.lkbs i).rqmode iv ≡ false
    → IsBusy s
    → Progress s i (modify s i (set_altmode alt)) false
unfolding set_altmode
altered-Progress s i alt n b = record {
  busy = record {
    holding = λ j h. ground (arith, b.holding j);
    queued = λ j h. ground (arith, b.queued j);
    distinct = b.distinct;
  };
  less = ground (
    arith,
    weigh_mono s.lkbs (update s.lkbs i (set_altmode alt (s.lkbs i))) s.rsb.convertqueue
        (λ j h. ground arith),
  );
  others = λ j ne. refl;
}

-- A lock without a request conflicts with no other.
idle-queue_conflict :
    (lkbs : ℕ → Lkb) (q : List ℕ) (i : ℕ) → (lkbs i).rqmode ≡ iv → queue_conflict lkbs q i ≡ false
unfolding queue_conflict
idle-queue_conflict lkbs [] i e = refl
idle-queue_conflict lkbs (x ∷ q) i e =
    ground (arith, idle-queue_conflict lkbs q i e, modes_compat-iv (lkbs x).grmode)

idle-grantable :
    (s : State) (i : ℕ) (alt : Mode) (now recover : Bool)
    → (s.lkbs i).rqmode ≡ iv
    → grantable s i now recover ≡ false
    → grantable (modify s i (set_rqmode alt)) i now false ≡ false
unfolding grantable set_rqmode
idle-grantable s i alt now recover e h = ground (
  arith,
  ==-refl i,
  idle-queue_conflict s.lkbs s.rsb.grantqueue i e,
  idle-queue_conflict s.lkbs s.rsb.convertqueue i e,
)

mode_eq→≡ : (m : Mode) → mode_eq m iv ≡ true → m ≡ iv
mode_eq→≡ iv h = refl
mode_eq→≡ nl h = cc
mode_eq→≡ m h = ground arith

try_alt-Progress :
    (s : State) (i : ℕ) (now recover : Bool)
    → IsBusy s
    → grantable s i now recover ≡ false
    → Progress s i (try_alt s i now).0 false
unfolding try_alt
try_alt-Progress s i now recover b h = elim (Option-cases (alt_mode (s.lkbs i))) [
  | inl none_left ↦ rw (none_left, try_alt) (no-Progress i (Quiet-refl s) b)
  | inr (alt, e) ↦ elim (Bool-cases (grantable (modify s i (set_rqmode alt)) i now false)) [
    | inl yes_alt ↦
        rw (e, yes_alt, try_alt)
          (altered-Progress s i alt
            (has_request alt yes_alt (Bool-cases (mode_eq (s.lkbs i).rqmode iv))) b)
    | inr no_alt ↦ rw (e, no_alt, try_alt) (no-Progress i (Quiet-refl s) b)
  ]
]
  where
    has_request :
        (alt : Mode)
        → grantable (modify s i (set_rqmode alt)) i now false ≡ true
        → (mode_eq (s.lkbs i).rqmode iv ≡ true) ⊎ (mode_eq (s.lkbs i).rqmode iv ≡ false)
        → mode_eq (s.lkbs i).rqmode iv ≡ false
    has_request alt y (inr n) = n
    has_request alt y (inl e) =
        cc (y, idle-grantable s i alt now recover (mode_eq→≡ (s.lkbs i).rqmode e) h)

Progress-if :
    {s : State} {i : ℕ} (x y : Verdict) (b : Bool)
    → (b ≡ true → Progress s i x.after false)
    → (b ≡ false → Progress s i y.after false)
    → let v : Verdict = if b then x else y in Progress s i v.after false
Progress-if x y true p q = p refl
Progress-if x y false p q = q refl

pub can_be_granted-Progress :
    (s : State) (i : ℕ) (now recover want_err : Bool)
    → IsBusy s
    → Progress s i (can_be_granted s i now recover want_err).after false
unfolding can_be_granted
can_be_granted-Progress s i now recover want_err b =
    Progress-if _ _ (grantable s i now recover) (λ _. none_done)
      λ bad.
        Progress-if _ _
          (not (mode_eq (s.lkbs i).grmode iv)
            && can_be_queued (s.lkbs i)
            && conversion_deadlock_detect s i)
          (λ _.
            Progress-if _ _ (s.lkbs i).exflags.convdeadlk (λ _. demoted-Progress s i b)
              (λ _. none_done))
          (λ _. try_alt-Progress s i now recover b bad)
  where
    none_done : Progress s i s false
    none_done = no-Progress i (Quiet-refl s) b

pub bast_deadlock-Quiet : (s : State) (i : ℕ) → Quiet s (bast_deadlock s i)
unfolding bast_deadlock
bast_deadlock-Quiet s i = pick _
  where
    pick :
        (b : Bool)
        → Quiet s (
            if b
            then modify (queue_bast s i (s.lkbs i).rqmode) i (set_highbast (s.lkbs i).rqmode)
            else s)
    pick true = Quiet-trans (queue_bast-Quiet s i _) (set_highbast-Quiet _ i _)
    pick false = Quiet-refl s
