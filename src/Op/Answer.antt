-- ===== src/Op/Answer.antt =====
-- What the answer of a new request says: fs/dlm/lock.c 2924-2945.
use lockify.Base.{
  ℕ, ◌≡◌, refl, ap, ◌∙◌, Bool, true, false, not, ◌&&◌, if◌then◌else◌, arith, elem, ==-refl,
  Bool-cases, Option-cases, some, inl, inr,
}
use lockify.Modes.{Mode, iv, mode_eq}
use lockify.State.Events.{LkSts, is_off, Errno, success, eagain, einprogress}
use lockify.State.{State, Lkb, modify, can_be_queued}
use lockify.State.Set.{add_ref, set_status, clear_request, set_rqmode, set_altmode}
use lockify.Queue.{add_lkb, enqueue}
use lockify.Queue.Members.{elem-lkb_add_ordered, elem-list_add_at}
use lockify.Wire.{queue_cast, is_ecancel}
use lockify.Lvb.{set_lvb_lock}
use lockify.Grant.{
  Verdict, can_be_granted, grantable, try_alt, alt_mode, grant_lock, grant_held,
  conversion_deadlock_detect,
}
use lockify.Op.{do_request}
use lockify.Refine.Quiet.{Quiet, set_lvb_lock-Quiet, queue_cast-Quiet}

-- Granted: the lock is on the grant queue, and its request is done. In progress: it waits, and
-- holds nothing. Refused: the queues are as before. There is no other answer.
abbrev pub Answer : State → State → ℕ → Errno → Type 0
Answer s t i success = (elem i t.rsb.grantqueue ≡ true) × ((t.lkbs i).rqmode ≡ iv)
Answer s t i einprogress = (elem i t.rsb.waitqueue ≡ true) × ((t.lkbs i).grmode ≡ iv)
Answer s t i eagain = t.rsb ≡ s.rsb
Answer s t i _ = true ≡ false

if-rsb :
    (s : State) (x y : Verdict) (b : Bool)
    → x.after.rsb ≡ s.rsb
    → y.after.rsb ≡ s.rsb
    → (if b then x else y).after.rsb ≡ s.rsb
if-rsb s x y true f g = f
if-rsb s x y false f g = g

state-if :
    (s x y : State) (b : Bool) → x.rsb ≡ s.rsb → y.rsb ≡ s.rsb → (if b then x else y).rsb ≡ s.rsb
state-if s x y true f g = f
state-if s x y false f g = g

try_alt-rsb : (s : State) (i : ℕ) (now : Bool) → (try_alt s i now).0.rsb ≡ s.rsb
unfolding try_alt
try_alt-rsb s i now = elim (Option-cases (alt_mode (s.lkbs i))) [
  | inl e ↦ rw (e, try_alt) refl
  | inr (alt, e) ↦ elim (Bool-cases (grantable (modify s i (set_rqmode alt)) i now false)) [
    | inl y ↦ rw (e, y, try_alt) refl
    | inr n ↦ rw (e, n, try_alt) refl
  ]
]

can_be_granted-rsb :
    (s : State) (i : ℕ) (now recover want_err : Bool)
    → (can_be_granted s i now recover want_err).after.rsb ≡ s.rsb
unfolding can_be_granted
can_be_granted-rsb s i now recover want_err = if-rsb s _ _ (grantable s i now recover) refl (
    if-rsb s _ _
      (not (mode_eq (s.lkbs i).grmode iv)
        && can_be_queued (s.lkbs i)
        && conversion_deadlock_detect s i)
      (if-rsb s _ _ (s.lkbs i).exflags.convdeadlk refl refl) (try_alt-rsb s i now))

queue_cast-rsb : (s : State) (i : ℕ) (e : Errno) → (queue_cast s i e).rsb ≡ s.rsb
unfolding queue_cast
queue_cast-rsb s i e =
    state-if s _ _ (s.lkbs i).mstcpy refl
      (state-if s _ _ (is_ecancel e && (s.lkbs i).deadlock_cancel) refl refl)

granted-Answer :
    (s t : State) (i : ℕ)
    → is_off (t.lkbs i).status ≡ true
    → mode_eq (t.lkbs i).grmode (t.lkbs i).rqmode ≡ false
    → Answer s (grant_held t i) i success
unfolding grant_held clear_request add_lkb enqueue
granted-Answer s t i off ne =
    rw (ne, off, grant_held)
      (
        elem-lkb_add_ordered _ i i _ t.rsb.grantqueue ∙ ground (arith, ==-refl i),
        rw (==-refl i) refl,
      )

-- A new request: on no queue, holding nothing, and asking for a mode.
pub record IsFresh (s : State) (i : ℕ) : Type 0 where
  pub off : is_off (s.lkbs i).status ≡ true
  pub holds_nothing : (s.lkbs i).grmode ≡ iv
  pub asks : mode_eq iv (s.lkbs i).rqmode ≡ false

pub Quiet-IsFresh : {s t : State} (i : ℕ) → Quiet s t → IsFresh s i → IsFresh t i
Quiet-IsFresh i q v = record {
  off = ap is_off (q.still.status i) ∙ v.off;
  holds_nothing = q.still.keeps.gr i ∙ v.holds_nothing;
  asks = ap (mode_eq iv) (q.still.keeps.rq i) ∙ v.asks;
}

alt_mode-asks : (l : Lkb) (alt : Mode) → alt_mode l ≡ some alt → mode_eq iv alt ≡ false
unfolding alt_mode
alt_mode-asks l alt e = ground arith

altered-IsFresh :
    (s : State) (i : ℕ) (alt : Mode)
    → mode_eq iv alt ≡ false
    → IsFresh s i
    → IsFresh (modify s i (set_altmode alt)) i
unfolding set_altmode
altered-IsFresh s i alt e v = record {
  off = rw (==-refl i) v.off;
  holds_nothing = rw (==-refl i) v.holds_nothing;
  asks = rw (==-refl i) e;
}

try_alt-IsFresh : (s : State) (i : ℕ) (now : Bool) → IsFresh s i → IsFresh (try_alt s i now).0 i
unfolding try_alt
try_alt-IsFresh s i now v = elim (Option-cases (alt_mode (s.lkbs i))) [
  | inl e ↦ rw (e, try_alt) v
  | inr (alt, e) ↦ elim (Bool-cases (grantable (modify s i (set_rqmode alt)) i now false)) [
    | inl y ↦ rw (e, y, try_alt) (altered-IsFresh s i alt (alt_mode-asks (s.lkbs i) alt e) v)
    | inr n ↦ rw (e, n, try_alt) v
  ]
]

if-IsFresh :
    (i : ℕ) (x y : Verdict) (b : Bool)
    → (b ≡ true → IsFresh x.after i)
    → IsFresh y.after i
    → IsFresh (if b then x else y).after i
if-IsFresh i x y true f g = f refl
if-IsFresh i x y false f g = g

pub can_be_granted-IsFresh :
    (s : State) (i : ℕ) (now recover want_err : Bool)
    → IsFresh s i
    → IsFresh (can_be_granted s i now recover want_err).after i
unfolding can_be_granted
can_be_granted-IsFresh s i now recover want_err v =
    if-IsFresh i _ _ (grantable s i now recover) (λ _. v)
      (if-IsFresh i _ _
        (not (mode_eq (s.lkbs i).grmode iv)
          && can_be_queued (s.lkbs i)
          && conversion_deadlock_detect s i)
        (λ (h : (not (mode_eq (s.lkbs i).grmode iv)
              && can_be_queued (s.lkbs i)
              && conversion_deadlock_detect s i)
            ≡ true).
          absurd (ground (arith, v.holds_nothing)))
        (try_alt-IsFresh s i now v))

waits-Answer :
    (s t : State) (i : ℕ)
    → (t.lkbs i).grmode ≡ iv
    → Answer s (add_lkb t i LkSts.waiting) i einprogress
unfolding add_lkb enqueue set_status add_ref
waits-Answer s t i e = (
  elem-list_add_at _ i i t.rsb.waitqueue ∙ ground (arith, ==-refl i),
  ground (arith, ==-refl i, e),
)

cast-Answer :
    (s t : State) (i : ℕ) → Answer s t i success → Answer s (queue_cast t i success) i success
cast-Answer s t i a = (
  ap (elem i) (queue_cast-Quiet t i success).granted ∙ a.0,
  (queue_cast-Quiet t i success).still.keeps.rq i ∙ a.1,
)

now-Answer :
    (s t : State) (i : ℕ) → IsFresh t i → Answer s (queue_cast (grant_lock t i) i success) i success
unfolding grant_lock
now-Answer s t i v =
    let w = Quiet-IsFresh i (set_lvb_lock-Quiet t i) v in
    cast-Answer s (grant_lock t i) i (
      granted-Answer s (set_lvb_lock t i) i w.off
        (ap (λ (m : Mode). mode_eq m ((set_lvb_lock t i).lkbs i).rqmode) w.holds_nothing ∙ w.asks))

-- For a new request, on no queue, holding nothing and asking for a mode, do_request answers 0
-- with the lock on the grant queue and its request done, EINPROGRESS with the lock on the wait
-- queue holding nothing, or EAGAIN with the resource as before, and nothing else.
pub do_request-Answer :
    (s : State) (i : ℕ) → IsFresh s i → Answer s (do_request s i).0 i (do_request s i).1
unfolding do_request
do_request-Answer s i v = by_tests c.ok (can_be_queued (c.after.lkbs i))
  where
    c : Verdict
    c = can_be_granted s i true false false

    w : IsFresh c.after i
    w = can_be_granted-IsFresh s i true false false v

    by_tests :
        (ok queued : Bool)
        → let r : State × Errno =
            if ok
            then (queue_cast (grant_lock c.after i) i success, success)
            else if queued
            then (add_lkb c.after i LkSts.waiting, einprogress)
            else (queue_cast c.after i eagain, eagain) in
          Answer s r.0 i r.1
    by_tests true queued = now-Answer s c.after i w
    by_tests false true = waits-Answer s c.after i w.holds_nothing
    by_tests false false = queue_cast-rsb c.after i eagain ∙ can_be_granted-rsb s i true false false
