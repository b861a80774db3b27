-- ===== src/Args/Notify.antt =====
-- A conversion while the lock waits for the reply to its notification: fs/dlm/lock.c 2702-2711 and 3190-3210.
use lockify.Base.{
  ℕ, ◌≡◌, refl, sym, ap, subst, ◌∙◌, Bool, true, false, [], if◌then◌else◌, ==-refl, arith,
}
use lockify.Modes.{Mode, iv, mode_eq, lvb_operation, LvbOp}
use lockify.State.Events.{Errno, success}
use lockify.State.{State, Rsb, modify, is_remote, assert_known_master}
use lockify.State.Set.{set_valnotvalid}
use lockify.Wire.{queue_cast}
use lockify.Lvb.{set_lvb_lock, note_valnotvalid, return_lvb, store_lvb, copy_lvbseq}
use lockify.Grant.{grantable, can_be_granted, grant_held, grant_lock}
use lockify.Pending.{
  Granted, convert_one, wait_one, walk, convert_loop, convert_pass, grant_pending_convert,
  grant_pending_wait, grant_pending_locks,
}
use lockify.Op.{do_convert, do_convert_effects, grant_now}
use lockify.Send.{send_convert}
use lockify.Stage.{rsb_convert_lock}
use lockify.Waiters.{waits_for}
use lockify.Args.{LockArgs, is_notify, validate_lock_args}
use lockify.Api.{convert_lock}
use lockify.Args.Idle.{
  asks_nothing-grantable, no_lvb, Moved, IsIdle, Emptied, Moved-Emptied, grant_held-Emptied,
}

-- With no mode asked for, the value block stays where it is.
set_lvb_lock-nothing :
    (s : State) (i : ℕ) → (s.lkbs i).rqmode ≡ iv → set_lvb_lock s i ≡ note_valnotvalid i s
unfolding set_lvb_lock
set_lvb_lock-nothing s i e =
    ap
      (λ (o : LvbOp). elim o as (λ _. State) [
        | LvbOp.returned ↦ return_lvb s i
        | LvbOp.written ↦ store_lvb (λ t. note_valnotvalid i (copy_lvbseq i t)) s i
        | LvbOp.nothing ↦ note_valnotvalid i s
      ])
      (ap (lvb_operation (s.lkbs i).grmode) e ∙ no_lvb (s.lkbs i).grmode)

record Asks (s t : State) (i : ℕ) : Type 0 where
  rqmode : (t.lkbs i).rqmode ≡ (s.lkbs i).rqmode
  grmode : (t.lkbs i).grmode ≡ (s.lkbs i).grmode
  rsb : t.rsb ≡ s.rsb

note_valnotvalid-Asks : (s : State) (i : ℕ) → Asks s (note_valnotvalid i s) i
unfolding note_valnotvalid set_valnotvalid
note_valnotvalid-Asks s i = pick s.rsb.valnotvalid
  where
    pick : (b : Bool) → Asks s (if b then modify s i set_valnotvalid else s) i
    pick true = record {
      rqmode = ground (arith, ==-refl i);
      grmode = ground (arith, ==-refl i);
      rsb = refl;
    }
    pick false = record { rqmode = refl; grmode = refl; rsb = refl }

grant_lock-Emptied :
    (s : State) (i : ℕ)
    → (s.lkbs i).rqmode ≡ iv
    → mode_eq (s.lkbs i).grmode iv ≡ false
    → IsIdle s
    → Emptied (grant_lock s i) i
unfolding grant_lock
grant_lock-Emptied s i e h v =
    subst (λ (t : State). Emptied (grant_held t i) i) (sym (set_lvb_lock-nothing s i e))
      (grant_held-Emptied (note_valnotvalid i s) i (q.rqmode ∙ e)
        (ap (λ (m : Mode). mode_eq m iv) q.grmode ∙ h)
        (record {
          converting = ap (λ (r : Rsb). r.convertqueue) q.rsb ∙ v.converting;
          waiting = ap (λ (r : Rsb). r.waitqueue) q.rsb ∙ v.waiting;
        }))
  where
    q : Asks s (note_valnotvalid i s) i
    q = note_valnotvalid-Asks s i

queue_cast-Moved : (s : State) (i : ℕ) → Moved s (queue_cast s i success) i
unfolding queue_cast
queue_cast-Moved s i = record {
  grmode = ground arith;
  idle = λ v. record {
    converting = ground (arith, v.converting);
    waiting = ground (arith, v.waiting);
  };
  res_nodeid = ground arith;
}

can_be_granted-yes :
    (s : State) (i : ℕ)
    → grantable s i true false ≡ true
    → can_be_granted s i true false true ≡ record { after = s; ok = true; deadlk = false }
unfolding can_be_granted
can_be_granted-yes s i g = rw g refl

do_convert-now :
    (s : State) (i : ℕ) → grantable s i true false ≡ true → do_convert s i ≡ grant_now s i
unfolding do_convert
do_convert-now s i g = rw (can_be_granted-yes s i g) refl

do_convert-Emptied :
    (s : State) (i : ℕ)
    → (s.lkbs i).rqmode ≡ iv
    → mode_eq (s.lkbs i).grmode iv ≡ false
    → (s.lkbs i).exflags.quecvt ≡ false
    → IsIdle s
    → ((do_convert s i).1 ≡ success) × Emptied (do_convert s i).0 i
do_convert-Emptied s i e h q v =
    subst (λ (r : State × Errno). (r.1 ≡ success) × Emptied r.0 i)
      (sym (do_convert-now s i (asks_nothing-grantable s i e h q)))
      (refl, Moved-Emptied (queue_cast-Moved (grant_lock s i) i) (grant_lock-Emptied s i e h v))

no_pass :
    (s : State)
    → s.rsb.convertqueue ≡ []
    → convert_pass s false 0 ≡ record {
      after = s;
      hi = iv;
      cw_blocked = false;
      grant_restart = false;
      demote_restart = false;
      count = 0;
    }
unfolding convert_pass walk
no_pass s e =
    ap
      (walk convert_one (record {
        after = s;
        hi = iv;
        cw_blocked = false;
        grant_restart = false;
        demote_restart = false;
        count = 0;
      }))
      e

no_convert :
    (s : State)
    → s.rsb.convertqueue ≡ []
    → grant_pending_convert s iv false 0
      ≡ record { after = s; high = iv; cw_blocked = false; count = 0; finished = true }
unfolding grant_pending_convert convert_loop
no_convert s e = rw (no_pass s e) refl

no_wait : (g : Granted) → g.after.rsb.waitqueue ≡ [] → grant_pending_wait g ≡ g
unfolding grant_pending_wait walk
no_wait g e = ap (walk wait_one g) e

-- With nobody waiting there is nothing to grant.
grant_pending_locks-idle : (s : State) → IsIdle s → (grant_pending_locks s).after ≡ s
unfolding grant_pending_locks
grant_pending_locks-idle s v = rw (no_convert s v.converting, no_wait idle v.waiting) (ground arith)
  where
    idle : Granted
    idle = record { after = s; high = iv; cw_blocked = false; count = 0; finished = true }

effects-idle : (s : State) (i : ℕ) → IsIdle s → do_convert_effects s i success ≡ s
unfolding do_convert_effects
effects-idle s i v = grant_pending_locks-idle s v

-- The arguments are neither looked at nor stored.
unchecked :
    (s : State) (i : ℕ) (a : LockArgs)
    → waits_for is_notify (s.lkbs i) ≡ true
    → validate_lock_args s i a ≡ (s, success)
unfolding validate_lock_args
unchecked s i a w = rw w refl

rsb_convert_lock-Emptied :
    (s : State) (i : ℕ)
    → is_remote s ≡ false
    → (s.lkbs i).rqmode ≡ iv
    → mode_eq (s.lkbs i).grmode iv ≡ false
    → (s.lkbs i).exflags.quecvt ≡ false
    → IsIdle s
    → ((rsb_convert_lock s i).1 ≡ success) × (((rsb_convert_lock s i).0.lkbs i).grmode ≡ iv)
unfolding rsb_convert_lock
rsb_convert_lock-Emptied s i m e h q v =
    subst
      (λ (b : Bool).
        let r : State × Errno = if b then send_convert t i else worked in
        (r.1 ≡ success) × ((r.0.lkbs i).grmode ≡ iv))
      (sym m) (done.0, subst (λ (u : State). (u.lkbs i).grmode ≡ iv) (sym settled) done.1.grmode)
  where
    t : State
    t = assert_known_master s

    worked : State × Errno
    worked = (do_convert_effects (do_convert t i).0 i (do_convert t i).1, (do_convert t i).1)

    done : ((do_convert t i).1 ≡ success) × Emptied (do_convert t i).0 i
    done = do_convert-Emptied t i e h q (record { converting = v.converting; waiting = v.waiting })

    settled : do_convert_effects (do_convert t i).0 i (do_convert t i).1 ≡ (do_convert t i).0
    settled =
        ap (do_convert_effects (do_convert t i).0 i) done.0
        ∙ effects-idle (do_convert t i).0 i done.1.idle

-- On the master, if a lock that holds a mode and has no request pending (its rqmode is IV) and
-- no QUECVT in its flags waits for the reply to its notification, and no lock converts or
-- waits, convert_lock, with any mode and flags, returns success and the lock then holds IV
-- instead of the mode that was asked for.
pub convert_lock-iv :
    (s : State) (i : ℕ) (a : LockArgs)
    → waits_for is_notify (s.lkbs i) ≡ true
    → is_remote s ≡ false
    → (s.lkbs i).rqmode ≡ iv
    → mode_eq (s.lkbs i).grmode iv ≡ false
    → (s.lkbs i).exflags.quecvt ≡ false
    → s.rsb.convertqueue ≡ []
    → s.rsb.waitqueue ≡ []
    → ((convert_lock s i a).1 ≡ success) × (((convert_lock s i a).0.lkbs i).grmode ≡ iv)
unfolding convert_lock
convert_lock-iv s i a w m e h q c n =
    rw (unchecked s i a w)
      (rsb_convert_lock-Emptied s i m e h q (record { converting = c; waiting = n }))
