-- ===== src/Refine/Grant.antt =====
-- Granting, removing and reverting a lock are steps of the table.
use lockify.Base.{
  ℕ, ◌≡◌, refl, ◌∙◌, Bool, true, false, ◌||◌, ◌==◌, arith, ◌≢◌, Bool-cases, inl, inr, update,
}
use lockify.Modes.{Mode, iv, nl, mode_eq, mode_lt, modes_compat}
use lockify.Modes.Compat.{modes_compat-iv, modes_compat-nl, modes_compat_comm}
use lockify.State.Events.{LkSts, is_off}
use lockify.State.{State, Lkb, modify}
use lockify.State.Set.{set_grmode, clear_request}
use lockify.Spec.{here, next, grant}
use lockify.Queue.{add_lkb, move_lkb, queue_conflict}
use lockify.Queue.Members.{queue_conflict-compat}
use lockify.Grant.{grantable, grant_held, grant_lock}
use lockify.Lvb.{set_lvb_lock}
use lockify.Refine.Frame.{
  Keeps, is_listed, add_lkb-Keeps, move_lkb-Keeps, add_lkb-granted-is_listed,
  move_lkb-granted-is_listed,
}
use lockify.Refine.Quiet.{Quiet, set_lvb_lock-Quiet}
use lockify.Refine.Relation.{table, IsMild, Inv, Refines, Refines-trans, Quiet-Refines}

-- Lock `i` may take the mode `m`: every other lock holds a compatible one.
abbrev pub Fits : State → ℕ → Mode → Type 0
Fits s i m = (j : ℕ) → i ≢ j → modes_compat (table s j) m ≡ true

iv-modes_compat : (m : Mode) → modes_compat iv m ≡ true
iv-modes_compat m = modes_compat_comm iv m ∙ modes_compat-iv m

mild-compat : (m k : Mode) → mode_lt nl m ≡ false → modes_compat k m ≡ true
mild-compat iv k h = modes_compat-iv k
mild-compat nl k h = modes_compat-nl k
mild-compat m k h = cc

no_conflict-Fits :
    (s : State) (i : ℕ)
    → Inv s
    → queue_conflict s.lkbs s.rsb.grantqueue i ≡ false
    → queue_conflict s.lkbs s.rsb.convertqueue i ≡ false
    → Fits s i (s.lkbs i).rqmode
no_conflict-Fits s i v g c j ne = ground (
  arith,
  queue_conflict-compat s.lkbs s.rsb.grantqueue i j,
  queue_conflict-compat s.lkbs s.rsb.convertqueue i j,
  v.listed j,
  iv-modes_compat (s.lkbs i).rqmode,
)

-- In a state with the invariant, where _can_be_granted says yes, what the lock asks for is
-- compatible with the mode of every other lock.
pub grantable-Fits :
    (s : State) (i : ℕ) (now recover : Bool)
    → Inv s
    → grantable s i now recover ≡ true
    → Fits s i (s.lkbs i).rqmode
unfolding grantable
grantable-Fits s i now recover v h = elim (Bool-cases (s.lkbs i).exflags.expedite) [
  | inl x ↦ λ j ne. mild-compat (s.lkbs i).rqmode (table s j) (v.mild i x)
  | inr x ↦ no_conflict-Fits s i v (ground arith) (ground arith)
]

-- The flags and the requested modes after `_grant_lock`: that of lock `i` is cleared.
cleared-IsMild :
    (f g : ℕ → Lkb) (i : ℕ) (m : Mode)
    → Keeps (update f i (set_grmode m (f i))) g
    → ((j : ℕ) → IsMild (f j))
    → (j : ℕ) → IsMild (update g i (clear_request (g i)) j)
unfolding set_grmode clear_request
cleared-IsMild f g i m k mild j x = ground (arith, k.rq j, k.fl j, mild j)

cleared-grmode :
    (f g : ℕ → Lkb) (i : ℕ) (m : Mode)
    → Keeps (update f i (set_grmode m (f i))) g
    → (j : ℕ) → (update g i (clear_request (g i)) j).grmode ≡ update (λ j. (f j).grmode) i m j
unfolding set_grmode clear_request
cleared-grmode f g i m k j = ground (arith, k.gr j, k.gr i)

-- Lock `i` ends up with the mode `m` and on the grant queue.
granted-Refines :
    (s v : State) (i : ℕ) (m : Mode)
    → Keeps (update s.lkbs i (set_grmode m (s.lkbs i))) v.lkbs
    → ((j : ℕ) → is_listed v.rsb j ≡ ((i == j) || is_listed s.rsb j))
    → Inv s
    → Fits s i m
    → Refines s (modify v i clear_request)
granted-Refines s v i m k l inv fits = record {
  steps = next (here (λ j. refl)) (grant i m fits (cleared-grmode s.lkbs v.lkbs i m k));
  inv = record {
    listed = λ j h. ground (arith, cleared-grmode s.lkbs v.lkbs i m k j, l j, inv.listed j);
    mild = cleared-IsMild s.lkbs v.lkbs i m k inv.mild;
  };
}

-- Lock `i` keeps its mode, and its request is done.
settled-Refines : (s : State) (i : ℕ) → Inv s → Refines s (modify s i clear_request)
unfolding clear_request
settled-Refines s i v = record {
  steps = here (λ j. ground arith);
  inv = record {
    listed = λ j h. ground (arith, v.listed j);
    mild = λ j x. ground (arith, v.mild j);
  };
}

pub grant_held-Refines :
    (s : State) (i : ℕ) → Inv s → Fits s i (s.lkbs i).rqmode → Refines s (grant_held s i)
unfolding grant_held
grant_held-Refines s i v fits = elim (Bool-cases (mode_eq (s.lkbs i).grmode (s.lkbs i).rqmode)) [
  | inl same ↦ rw (same, grant_held) (settled-Refines s i v)
  | inr other ↦ elim (Bool-cases (is_off (s.lkbs i).status)) [
    | inl new ↦
        rw (other, new, grant_held)
          (granted-Refines s (add_lkb t i LkSts.granted) i m (add_lkb-Keeps t i LkSts.granted)
            (add_lkb-granted-is_listed t i) v fits)
    | inr old ↦
        rw (other, old, grant_held)
          (granted-Refines s (move_lkb t i LkSts.granted) i m (move_lkb-Keeps t i LkSts.granted)
            (move_lkb-granted-is_listed t i) v fits)
  ]
]
  where
    m : Mode
    m = (s.lkbs i).rqmode

    t : State
    t = modify s i (set_grmode m)

pub Fits-Quiet :
    {s t : State} (i : ℕ) → Quiet s t → Fits s i (s.lkbs i).rqmode → Fits t i (t.lkbs i).rqmode
Fits-Quiet {s} {t} i q fits j ne = rw (q.still.keeps.gr j, q.still.keeps.rq i) (fits j ne)

pub grant_lock-Refines :
    (s : State) (i : ℕ) → Inv s → Fits s i (s.lkbs i).rqmode → Refines s (grant_lock s i)
unfolding grant_lock
grant_lock-Refines s i v fits =
    Refines-trans (Quiet-Refines q v)
      (λ w. grant_held-Refines t i w (Fits-Quiet {s = s} {t = t} i q fits))
  where
    t : State
    t = set_lvb_lock s i

    q : Quiet s t
    q = set_lvb_lock-Quiet s i
