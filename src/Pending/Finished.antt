-- ===== src/Pending/Finished.antt =====
-- The end of `grant_pending_convert`, fs/dlm/lock.c 2314-2381.
use lockify.Base.{
  one_if, ℕ, zero, suc, ◌+◌, ◌≤◌, ◌<◌, ◌≡◌, refl, ◌∙◌, Bool, true, false, not, ◌&&◌, ◌||◌,
  if◌then◌else◌, List, [], ◌∷◌, elem, elem-cons, arith, ◌≢◌,
}
use lockify.Modes.{Mode}
use lockify.State.{State}
use lockify.Grant.{Verdict, can_be_granted}
use lockify.Pending.{
  Pass, Granted, convert_one, convert_pass, convert_loop, convert_fuel, grant_pending_convert, walk,
}
use lockify.Pending.Measure.{weigh-le, Distinct}
use lockify.Pending.Ends.{IsBusy, left, Progress, Quiet-Progress, grant_lock_pending-Progress}
use lockify.Pending.Passes.{can_be_granted-Progress, bast_deadlock-Quiet, Progress-trans}

-- One lock of the walk: what is left, with one for a restart that is asked for, does not grow.
record Turn (p : Pass) (i : ℕ) (t : Pass) : Type 0 where
  pub busy : IsBusy t.after
  pub less : left t.after + one_if t.grant_restart ≤ left p.after + one_if p.grant_restart
  pub others : (j : ℕ) → i ≢ j → elem j t.after.rsb.convertqueue ≡ elem j p.after.rsb.convertqueue

Turn-granted :
    (p : Pass) (i : ℕ) (t : Pass)
    → t.grant_restart ≡ true
    → Progress p.after i t.after true
    → Turn p i t
Turn-granted p i t e q = record {
  busy = q.busy;
  less = ground (arith, q.less);
  others = λ j ne. q.others j (λ _. ne);
}

Turn-kept :
    (p : Pass) (i : ℕ) (t : Pass)
    → t.grant_restart ≡ p.grant_restart
    → Progress p.after i t.after false
    → Turn p i t
Turn-kept p i t e q = record {
  busy = q.busy;
  less = ground (arith, q.less);
  others = λ j ne. q.others j (λ _. ne);
}

Turn-if :
    (p : Pass) (i : ℕ) (x y : Pass) (b : Bool)
    → Turn p i x
    → Turn p i y
    → Turn p i (if b then x else y)
Turn-if p i x y true f g = f
Turn-if p i x y false f g = g

convert_one-Turn :
    (p : Pass) (i : ℕ)
    → IsBusy p.after
    → elem i p.after.rsb.convertqueue ≡ true
    → Turn p i (convert_one p i)
unfolding convert_one
convert_one-Turn p i b on =
    Turn-if p i _ _ v.ok
      (Turn-granted p i _ refl (
        Progress-trans i true tried
          (grant_lock_pending-Progress v.after i tried.busy (tried.others i (λ e. cc) ∙ on))))
      (Turn-if p i _ _ (not demoted && (v.after.lkbs i).sbflags.demoted)
        (Turn-kept p i _ refl tried)
        (Turn-if p i _ _ v.deadlk
          (Turn-kept p i _ refl (Quiet-Progress i false tried (bast_deadlock-Quiet v.after i)))
          (Turn-kept p i _ refl tried)))
  where
    demoted : Bool
    demoted = (p.after.lkbs i).sbflags.demoted

    v : Verdict
    v = can_be_granted p.after i false p.after.rsb.recover_grant true

    tried : Progress p.after i v.after false
    tried = can_be_granted-Progress p.after i false p.after.rsb.recover_grant true b

walk-left :
    (q : List ℕ) (p : Pass)
    → Distinct q
    → ((j : ℕ) → elem j q ≡ true → elem j p.after.rsb.convertqueue ≡ true)
    → IsBusy p.after
    → let t = walk convert_one p q in
      IsBusy t.after
      × (left t.after + one_if t.grant_restart ≤ left p.after + one_if p.grant_restart)
unfolding walk
walk-left [] p d on b = (b, omega arith)
walk-left (i ∷ q) p d on b =
    let t : Turn p i (convert_one p i) =
      convert_one-Turn p i b (on i (elem-cons i i q ∙ ground arith)) in
    let r =
      walk-left q (convert_one p i) d.1
        (λ j h.
          t.others j (λ (e : i ≡ j). cc (e, h, d.0)) ∙ on j (elem-cons j i q ∙ ground (arith, h)))
        t.busy in
    (r.0, omega (arith, r.1, t.less))

-- One pass.
convert_pass-left :
    (s : State) (c : Bool) (n : ℕ)
    → IsBusy s
    → let p = convert_pass s c n in
      IsBusy p.after × (left p.after + one_if p.grant_restart ≤ left s)
unfolding convert_pass
convert_pass-left s c n b =
    let r = walk-left s.rsb.convertqueue _ b.distinct (λ j h. h) b in (r.0, ground (arith, r.1))

finished-if :
    (x y : Granted) (b : Bool)
    → (b ≡ true → x.finished ≡ true)
    → y.finished ≡ true
    → (if b then x else y).finished ≡ true
finished-if x y true f g = f refl
finished-if x y false f g = g

convert_loop-finished :
    (fuel : ℕ) (quit : Bool) (s : State) (high : Mode) (c : Bool) (n : ℕ)
    → IsBusy s
    → left s + one_if (not quit) < fuel
    → (convert_loop fuel quit s high c n).finished ≡ true
unfolding convert_loop
convert_loop-finished zero quit s high c n b h = ground (arith, h)
convert_loop-finished (suc fuel) quit s high c n b h =
    let p : Pass = convert_pass s c n in
    let r = convert_pass-left s c n b in
    finished-if _ _ (p.grant_restart || (p.demote_restart && not quit))
      (λ again.
        convert_loop-finished fuel (if p.grant_restart then quit else true) p.after high
          p.cw_blocked p.count r.0
          (fewer p.grant_restart p.demote_restart (left p.after) again r.1))
      refl
  where
    fewer :
        (g d : Bool) (l : ℕ)
        → (g || (d && not quit)) ≡ true
        → l + one_if g ≤ left s
        → l + one_if (not (if g then quit else true)) < fuel
    fewer g d l again le = ground (arith, h, again, le)

-- If the locks of the convert queue hold a mode, are off no queue and stand there once,
-- grant_pending_convert comes to an end: the fuel, twice the length of the queue and two more,
-- is enough for its restarts.
pub grant_pending_convert-finished :
    (s : State) (high : Mode) (c : Bool) (n : ℕ)
    → IsBusy s
    → (grant_pending_convert s high c n).finished ≡ true
unfolding grant_pending_convert
grant_pending_convert-finished s high c n b =
    convert_loop-finished (convert_fuel s) false s high c n b
      (omega (arith, weigh-le s.lkbs s.rsb.convertqueue))
