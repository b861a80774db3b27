-- ===== src/Refine/Reply.antt =====
-- A conversion that is sent to the master, and the reply to it: fs/dlm/lock.c 3549-3565 and 4863-4897.
use lockify.Base.{ℕ, ◌≡◌, refl, Bool, true, false, ◌&&◌, ◌||◌, if◌then◌else◌, arith, sym}
use lockify.Modes.{iv, mode_eq}
use lockify.Modes.Compat.{modes_compat-is_down}
use lockify.State.Events.{success, is_success, convert_msg, convert_reply, Message}
use lockify.State.{State, down_conversion}
use lockify.State.Set.{set_grmode}
use lockify.Spec.{IsCompatible, here, next, demote}
use lockify.Lvb.{set_lvb_lock_pc}
use lockify.Grant.{grant_lock_pc, munge_demoted}
use lockify.Waiters.{remove_from_waiters}
use lockify.Send.{
  send_common, send_convert, convert_replied, local_ms, follow_demotion, receive_flags_reply,
}
use lockify.Refine.Quiet.{Quiet, queue_cast-Quiet, set_lvb_lock_pc-Quiet}
use lockify.Refine.Relation.{
  table, Inv, Refines, Refines-trans, Refines-refl, Refines-if, Quiet-Refines,
}
use lockify.Refine.Grant.{Fits, Fits-Quiet, grant_held-Refines}
use lockify.Refine.Pending.{choose-Refines}
use lockify.Refine.Send.{state_of, remove_from_waiters-Quiet, send_common-Quiet}

munge_demoted-Refines : (s : State) (i : ℕ) → Inv s → Refines s (munge_demoted s i)
unfolding munge_demoted set_grmode
munge_demoted-Refines s i v =
    Refines-if (mode_eq (s.lkbs i).rqmode iv || mode_eq (s.lkbs i).grmode iv)
      (λ _. Refines-refl s v)
      λ h. record {
        steps = next (here (λ j. refl)) (demote i (λ j. ground arith));
        inv = record {
          listed = λ j e. ground (arith, v.listed j);
          mild = λ j x. ground (arith, v.mild j);
        };
      }

munge_demoted-Fits :
    (s : State) (i : ℕ)
    → Fits s i (s.lkbs i).rqmode
    → Fits (munge_demoted s i) i ((munge_demoted s i).lkbs i).rqmode
unfolding munge_demoted set_grmode
munge_demoted-Fits s i f j ne = ground (arith, f j ne)

follow_demotion-Refines : (s : State) (i : ℕ) → Inv s → Refines s (follow_demotion s i)
follow_demotion-Refines s i v =
    Refines-if (s.lkbs i).sbflags.demoted (λ _. munge_demoted-Refines s i v) (λ _. Refines-refl s v)

follow_demotion-Fits :
    (s : State) (i : ℕ)
    → Fits s i (s.lkbs i).rqmode
    → Fits (follow_demotion s i) i ((follow_demotion s i).lkbs i).rqmode
follow_demotion-Fits s i f = by_flag (s.lkbs i).sbflags.demoted
  where
    by_flag : (b : Bool) → let t = if b then munge_demoted s i else s in Fits t i (t.lkbs i).rqmode
    by_flag true = munge_demoted-Fits s i f
    by_flag false = f

-- A granted conversion of which the master is told, or that it has granted.
replied-Refines :
    (s : State) (i : ℕ) (ms : Message)
    → Inv s
    → Fits s i (s.lkbs i).rqmode
    → Refines s (convert_replied s i ms true success)
unfolding convert_replied receive_flags_reply grant_lock_pc
replied-Refines s i ms v f = Refines-trans (follow_demotion-Refines s i v) λ w.
    Refines-trans (Quiet-Refines q w) λ u.
      Refines-trans
        (grant_held-Refines _ i u (
          Fits-Quiet {s = follow_demotion s i} {t = set_lvb_lock_pc (follow_demotion s i) i ms} i q
            (follow_demotion-Fits s i f)))
        (Quiet-Refines (queue_cast-Quiet _ i success))
  where
    q : Quiet (follow_demotion s i) (set_lvb_lock_pc (follow_demotion s i) i ms)
    q = set_lvb_lock_pc-Quiet (follow_demotion s i) i ms

-- A down conversion fits wherever the granted mode did.
down-Fits :
    (s : State) (i : ℕ)
    → IsCompatible (table s)
    → down_conversion (s.lkbs i) ≡ true
    → Fits s i (s.lkbs i).rqmode
down-Fits s i c d j ne =
    modes_compat-is_down (s.lkbs i).grmode (s.lkbs i).rqmode (s.lkbs j).grmode d
      (c j i (λ e. ne (sym e)))

pub send_convert-Refines :
    (s : State) (i : ℕ) → IsCompatible (table s) → Inv s → Refines s (send_convert s i).0
unfolding send_convert
send_convert-Refines s i c v =
    choose-Refines state_of _ _
      (is_success (send_common s i convert_msg).1 && down_conversion (t.lkbs i))
      (λ h. Refines-trans (Quiet-Refines q v) λ w. Refines-trans (Quiet-Refines p w) λ u.
        replied-Refines _ i local_ms u (
          Fits-Quiet {s = t} {t = (remove_from_waiters t i convert_reply).0} i p
            (down-Fits t i compatible (ground arith))))
      (λ _. Quiet-Refines q v)
  where
    t : State
    t = (send_common s i convert_msg).0

    q : Quiet s t
    q = send_common-Quiet s i convert_msg

    p : Quiet t (remove_from_waiters t i convert_reply).0
    p = remove_from_waiters-Quiet t i convert_reply

    compatible : IsCompatible (table t)
    compatible a b ne = rw (q.still.keeps.gr a, q.still.keeps.gr b) (c a b ne)
