-- ===== src/Refine/Stage.antt =====
-- Stage 3 implements the table, on the master and on the other nodes.
use lockify.Base.{ℕ, ◌≡◌, refl, Bool, false, not, ◌&&◌, if◌then◌else◌, ◌==◌}
use lockify.State.Events.{Errno, node, NodeId, is_unset}
use lockify.State.{State, Rsb, modify, put_rsb, is_remote, assert_known_master}
use lockify.State.Set.{set_nodeid}
use lockify.Spec.{IsCompatible}
use lockify.Op.{
  do_request, do_request_effects, do_convert, do_convert_effects, do_unlock, do_unlock_effects,
  do_cancel, do_cancel_effects,
}
use lockify.Send.{send_request, send_convert, send_unlock, send_cancel}
use lockify.Stage.{
  choose_master, set_master, rsb_request_lock, rsb_convert_lock, rsb_unlock_lock, rsb_cancel_lock,
}
use lockify.Refine.Frame.{Still-refl}
use lockify.Refine.Quiet.{Quiet, alike, Quiet-trans}
use lockify.Refine.Relation.{table, Inv, Refines, Refines-trans, Quiet-Refines}
use lockify.Refine.Pending.{choose-Refines}
use lockify.Refine.Op.{
  do_request-Refines, do_request_effects-Refines, do_convert-Refines, do_convert_effects-Refines,
  do_unlock-Refines, do_unlock_effects-Refines, do_cancel-Refines, do_cancel_effects-Refines,
}
use lockify.Refine.Send.{
  choose-Quiet, state_of, send_common-Quiet, send_lookup-Quiet, send_notify-Quiet, set_nodeid-Quiet,
}
use lockify.Refine.Reply.{send_convert-Refines}

pub known-Quiet : (s : State) → Quiet s (assert_known_master s)
known-Quiet s = alike s _ (Still-refl s.lkbs) refl refl refl

-- Only fields of the resource other than its queues change, and the node id of the lock.
mastered-Quiet :
    (s : State) (r : Rsb) (i : ℕ) (n : NodeId)
    → r.grantqueue ≡ s.rsb.grantqueue
    → r.convertqueue ≡ s.rsb.convertqueue
    → r.waitqueue ≡ s.rsb.waitqueue
    → Quiet s (modify (put_rsb s r) i (set_nodeid n))
mastered-Quiet s r i n g c w =
    Quiet-trans (alike s _ (Still-refl s.lkbs) g c w) (set_nodeid-Quiet (put_rsb s r) i n)

abbrev waits_of : State × Bool → State
waits_of r = r.0

choose_master-Quiet : (s : State) (i : ℕ) → Quiet s (choose_master s i).0
unfolding choose_master
choose_master-Quiet s i =
    choose-Quiet waits_of _ _ (r.master_nodeid == our && is_unset r.res_nodeid)
      (Quiet-trans (mastered-Quiet s (record r { res_nodeid = node 0 }) i (node 0) refl refl refl)
        (send_notify-Quiet _ i))
      (choose-Quiet waits_of _ _ (r.master_nodeid == our) (set_nodeid-Quiet s i (node 0)) (
        choose-Quiet waits_of _ _ (not (r.master_nodeid == 0)) (set_nodeid-Quiet s i _) (
          choose-Quiet waits_of _ _ (s.env.dir_nodeid == our)
            (mastered-Quiet s (record r { master_nodeid = our; res_nodeid = node 0 }) i (node 0)
              refl refl refl)
            (Quiet-trans
              (alike s (put_rsb s (record r { first_lkid = i })) (Still-refl s.lkbs) refl refl refl)
              (send_lookup-Quiet _ i)))))
  where
    r : Rsb
    r = s.rsb

    our : ℕ
    our = s.env.our_nodeid

pub set_master-Quiet : (s : State) (i : ℕ) → Quiet s (set_master s i).0
unfolding set_master
set_master-Quiet s i =
    choose-Quiet waits_of _ _ s.rsb.master_uncertain
      (mastered-Quiet s (record s.rsb { master_uncertain = false; first_lkid = i }) i _ refl refl
        refl)
      (choose-Quiet waits_of _ _ (not (s.rsb.first_lkid == 0) && not (s.rsb.first_lkid == i))
        (alike s _ (Still-refl s.lkbs) refl refl refl) (choose_master-Quiet s i))

-- Stage 3 in general.
by_master-Refines :
    (remote op : State → ℕ → State × Errno) (effects : State → ℕ → Errno → State)
    → (s : State) (i : ℕ) → Inv s
    → (Inv (assert_known_master s)
        → Refines (assert_known_master s) (remote (assert_known_master s) i).0)
    → ((t : State) → Inv t → Refines t (op t i).0)
    → ((t : State) (e : Errno) → Inv t → Refines t (effects t i e))
    → let t = assert_known_master s in
      Refines s (
        state_of
          (if is_remote s then remote t i else (effects (op t i).0 i (op t i).1, (op t i).1)))
by_master-Refines remote op effects s i v far near after =
    Refines-trans (Quiet-Refines (known-Quiet s) v) λ w.
      choose-Refines state_of _ _ (is_remote s) (λ _. far w)
        (λ _. Refines-trans (near _ w) (after _ _))

-- From a state with the invariant, _request_lock, with its lookup of the master, only does
-- steps of the table and keeps the invariant.
pub rsb_request_lock-Refines : (s : State) (i : ℕ) → Inv s → Refines s (rsb_request_lock s i).0
unfolding rsb_request_lock send_request
rsb_request_lock-Refines s i v =
    choose-Refines state_of _ _ (set_master s i).1 (λ _. q)
      (λ _. Refines-trans q λ w.
        by_master-Refines send_request do_request do_request_effects t i w
          (Quiet-Refines (send_common-Quiet _ i _)) (λ t. do_request-Refines t i)
          (λ t e. do_request_effects-Refines t i e))
  where
    t : State
    t = (set_master s i).0

    q : Refines s t
    q = Quiet-Refines (set_master-Quiet s i) v

-- From a state with the invariant, _unlock_lock only does steps of the table and keeps the
-- invariant: whoever is granted after the unlock fits the locks that are left.
pub rsb_unlock_lock-Refines : (s : State) (i : ℕ) → Inv s → Refines s (rsb_unlock_lock s i).0
unfolding rsb_unlock_lock send_unlock
rsb_unlock_lock-Refines s i v =
    by_master-Refines send_unlock do_unlock do_unlock_effects s i v
      (Quiet-Refines (send_common-Quiet _ i _)) (λ t. do_unlock-Refines t i)
      (λ t e. do_unlock_effects-Refines t i e)

-- From a state with the invariant, _cancel_lock only does steps of the table and keeps the
-- invariant, whether the lock is granted, converting or waiting.
pub rsb_cancel_lock-Refines : (s : State) (i : ℕ) → Inv s → Refines s (rsb_cancel_lock s i).0
unfolding rsb_cancel_lock send_cancel
rsb_cancel_lock-Refines s i v =
    by_master-Refines send_cancel do_cancel do_cancel_effects s i v
      (Quiet-Refines (send_common-Quiet _ i _)) (λ t. do_cancel-Refines t i)
      (λ t e. do_cancel_effects-Refines t i e)

-- From a state with the invariant and compatible modes, _convert_lock, on the master or sent to
-- it, only does steps of the table: a lock takes a mode beside compatible ones, is released or
-- is demoted to NL; and it keeps the invariant.
pub rsb_convert_lock-Refines :
    (s : State) (i : ℕ) → IsCompatible (table s) → Inv s → Refines s (rsb_convert_lock s i).0
unfolding rsb_convert_lock
rsb_convert_lock-Refines s i c v =
    by_master-Refines send_convert do_convert do_convert_effects s i v
      (send_convert-Refines (assert_known_master s) i c) (λ t. do_convert-Refines t i)
      (λ t e. do_convert_effects-Refines t i e)
