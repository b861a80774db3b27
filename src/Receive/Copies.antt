-- ===== src/Receive/Copies.antt =====
-- The two copies of a lock, on the node of its owner and on the master, through a conversion:
-- fs/dlm/lock.c 2964-3024, 4058-4103 and 4487-4529.
pub mod Agree
pub mod Alternate
use lockify.Base.{
  ℕ, ◌+◌, ◌≡◌, refl, sym, ap, ◌∙◌, subst, Bool, true, false, not, ◌&&◌, ◌||◌, if◌then◌else◌, ◌==◌,
  ==-refl, arith, Option-cases, Bool-cases, inl, inr, none, some, Option,
}
use lockify.Modes.{Mode, iv, nl, mode_eq}
use lockify.State.Events.{
  LkSts, Message, Errno, success, einprogress, eagain, edeadlk, convert_reply, is_granted, is_off,
}
use lockify.State.{State, Lkb, modify, can_be_queued}
use lockify.State.Set.{
  add_ref, drop_ref, set_status, set_grmode, set_rqmode, clear_request, set_reply_flags,
}
use lockify.Queue.{add_lkb, del_lkb, move_lkb, enqueue, unqueue}
use lockify.Wire.{queue_cast, send_args}
use lockify.Lvb.{set_lvb_lock, set_lvb_lock_pc}
use lockify.Grant.{
  Verdict, can_be_granted, grantable, conversion_deadlock_detect, try_alt, alt_mode, grant_held,
  grant_lock, grant_lock_pc, revert_lock, munge_demoted,
}
use lockify.Op.{grant_now, refuse, queue_convert, retry_demoted, do_convert}
use lockify.Send.{receive_flags_reply, follow_demotion, convert_replied}
use lockify.Refine.Quiet.{Quiet, queue_cast-Quiet, set_lvb_lock-Quiet, set_lvb_lock_pc-Quiet}
use lockify.Refine.Send.{modify-Quiet}

-- The lock holds that mode and has that status.
abbrev pub Shows : State → ℕ → Mode → LkSts → Type 0
Shows s i g sts = ((s.lkbs i).grmode ≡ g) × ((s.lkbs i).status ≡ sts)

pub Quiet-Shows :
    {s t : State} (i : ℕ) (g : Mode) (sts : LkSts) → Quiet s t → Shows s i g sts → Shows t i g sts
Quiet-Shows i g sts q v = (q.still.keeps.gr i ∙ v.0, q.still.status i ∙ v.1)

pub mode_eq→eq : (a b : Mode) → mode_eq a b ≡ true → a ≡ b
mode_eq→eq a b h = ground (arith, h)

pub requeued-Shows :
    (s : State) (i : ℕ) (g : Mode) (sts : LkSts)
    → Shows s i g sts
    → Shows (add_lkb (del_lkb s i) i LkSts.convert) i g LkSts.convert
unfolding add_lkb del_lkb enqueue unqueue set_status add_ref drop_ref
requeued-Shows s i g sts v = (rw (==-refl i) v.0, rw (==-refl i) refl)

requeued-demoted :
    (s : State) (i : ℕ)
    → ((add_lkb (del_lkb s i) i LkSts.convert).lkbs i).sbflags.demoted ≡ (s.lkbs i).sbflags.demoted
unfolding add_lkb del_lkb enqueue unqueue set_status add_ref drop_ref
requeued-demoted s i = rw (==-refl i) refl

pub reverted-Shows :
    (s : State) (i : ℕ) (g : Mode)
    → Shows s i g LkSts.granted
    → Shows (revert_lock s i).0 i g LkSts.granted
unfolding revert_lock set_rqmode
reverted-Shows s i g v = ground (arith, ==-refl i, v.0, v.1)

granted-Shows :
    (s : State) (i : ℕ)
    → (s.lkbs i).status ≡ LkSts.granted
    → Shows (grant_held s i) i (s.lkbs i).rqmode LkSts.granted
unfolding grant_held clear_request move_lkb add_lkb del_lkb enqueue unqueue set_status add_ref
    drop_ref set_grmode
granted-Shows s i e = elim (Bool-cases (mode_eq (s.lkbs i).grmode (s.lkbs i).rqmode)) [
  | inl same ↦ rw (same, grant_held, ==-refl i) (mode_eq→eq _ _ same, e)
  | inr other ↦ rw (other, ap is_off e, grant_held, ==-refl i) (refl, refl)
]

-- A granted lock that held `g` and asked for `m`, after a conversion with that result.
abbrev pub After : State → ℕ → Mode → Mode → Errno → Type 0
After s i g m success = Shows s i m LkSts.granted
After s i g m einprogress = Shows s i g LkSts.convert × ((s.lkbs i).sbflags.demoted ≡ false)
After s i g m eagain = Shows s i g LkSts.granted
After s i g m edeadlk = Shows s i g LkSts.granted
After s i g m _ = true ≡ false

-- The copy of a granted lock, which asks for another mode.
pub record Asks (s : State) (i : ℕ) (g m : Mode) : Type 0 where
  pub holds : (s.lkbs i).grmode ≡ g
  pub asks : (s.lkbs i).rqmode ≡ m
  pub granted : (s.lkbs i).status ≡ LkSts.granted

-- None of the flags with which the master may change a mode.
pub record IsPlain (l : Lkb) : Type 0 where
  pub convdeadlk : l.exflags.convdeadlk ≡ false
  pub altpr : l.exflags.altpr ≡ false
  pub altcw : l.exflags.altcw ≡ false
  pub demoted : l.sbflags.demoted ≡ false

pub Quiet-Asks : {s t : State} (i : ℕ) (g m : Mode) → Quiet s t → Asks s i g m → Asks t i g m
Quiet-Asks i g m q v = record {
  holds = q.still.keeps.gr i ∙ v.holds;
  asks = q.still.keeps.rq i ∙ v.asks;
  granted = q.still.status i ∙ v.granted;
}

-- `_grant_lock` of a granted lock.
pub held-After :
    (s : State) (i : ℕ) (g m : Mode) → Asks s i g m → Shows (grant_held s i) i m LkSts.granted
held-After s i g m v = let a = granted-Shows s i v.granted in (a.0 ∙ v.asks, a.1)

no_alt : (l : Lkb) → IsPlain l → alt_mode l ≡ none
unfolding alt_mode
no_alt l p = ground (arith, p.altpr, p.altcw)

can_be_granted_plain :
    (s : State) (i : ℕ) (now recover want_err : Bool)
    → IsPlain (s.lkbs i)
    → (can_be_granted s i now recover want_err).after ≡ s
unfolding can_be_granted try_alt
can_be_granted_plain s i now recover want_err p =
    same (grantable s i now recover) _ _ (λ _. refl)
      λ _.
        same
          (not (mode_eq (s.lkbs i).grmode iv)
            && can_be_queued (s.lkbs i)
            && conversion_deadlock_detect s i)
          _ _
          (λ _.
            same (s.lkbs i).exflags.convdeadlk _ _ (λ h. absurd (ground (arith, p.convdeadlk, h)))
              (λ _. refl))
          (λ _. unaltered)
  where
    same :
        (b : Bool) (x y : Verdict)
        → (b ≡ true → x.after ≡ s)
        → (b ≡ false → y.after ≡ s)
        → (if b then x else y).after ≡ s
    same true x y f g = f refl
    same false x y f g = g refl

    unaltered : (try_alt s i now).0 ≡ s
    unaltered = rw (no_alt (s.lkbs i) p, try_alt) refl

if-After :
    (i : ℕ) (g m : Mode) (b : Bool) (x y : State × Errno)
    → (b ≡ true → After x.0 i g m x.1)
    → (b ≡ false → After y.0 i g m y.1)
    → let r = if b then x else y in After r.0 i g m r.1
if-After i g m true x y f k = f refl
if-After i g m false x y f k = k refl

pub now-After :
    (s : State) (i : ℕ) (g m : Mode) → Asks s i g m → Shows (grant_now s i).0 i m LkSts.granted
unfolding grant_lock
now-After s i g m v =
    Quiet-Shows i m LkSts.granted (queue_cast-Quiet (grant_lock s i) i success)
      (held-After (set_lvb_lock s i) i g m (Quiet-Asks i g m (set_lvb_lock-Quiet s i) v))

queue_convert-After :
    (s : State) (i : ℕ) (g m : Mode)
    → (s.lkbs i).sbflags.demoted ≡ false
    → Asks s i g m
    → After (queue_convert s i).0 i g m (queue_convert s i).1
unfolding queue_convert
queue_convert-After s i g m d v =
    if-After i g m (can_be_queued (s.lkbs i)) (add_lkb (del_lkb s i) i LkSts.convert, einprogress)
      (refuse s i)
      (λ _. (requeued-Shows s i g LkSts.granted (v.holds, v.granted), requeued-demoted s i ∙ d))
      (λ _. Quiet-Shows i g LkSts.granted (queue_cast-Quiet s i eagain) (v.holds, v.granted))

pub do_convert-After :
    (s : State) (i : ℕ) (g m : Mode)
    → IsPlain (s.lkbs i)
    → Asks s i g m
    → After (do_convert s i).0 i g m (do_convert s i).1
unfolding do_convert
do_convert-After s i g m p v =
    if-After i g m c.ok (grant_now t i) _ (λ _. now-After t i g m w)
      λ _.
        if-After i g m (c.deadlk && not (t.lkbs i).exflags.nodlckwt)
          (queue_cast (revert_lock t i).0 i edeadlk, edeadlk) _
          (λ _.
            Quiet-Shows i g LkSts.granted (queue_cast-Quiet _ i edeadlk)
              (reverted-Shows t i g (w.holds, w.granted)))
          λ _.
            if-After i g m (t.lkbs i).sbflags.demoted (retry_demoted t i) (queue_convert t i)
              (λ h. absurd (ground (arith, d, h))) (λ _. queue_convert-After t i g m d w)
  where
    c : Verdict
    c = can_be_granted s i true false true

    t : State
    t = c.after

    e : t ≡ s
    e = can_be_granted_plain s i true false true p

    w : Asks t i g m
    w = subst (λ (u : State). Asks u i g m) (sym e) v

    d : (t.lkbs i).sbflags.demoted ≡ false
    d = ap (λ (u : State). (u.lkbs i).sbflags.demoted) e ∙ p.demoted
