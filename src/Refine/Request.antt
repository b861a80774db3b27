-- ===== src/Refine/Request.antt =====
-- A request from another node, with its new lock: fs/dlm/lock.c 3974-4056.
use lockify.Base.{ℕ, ◌≡◌, refl, sym, ◌∙◌, Bool, true, false, not, ◌==◌, ==-refl, arith}
use lockify.Modes.{iv, nl, mode_lt}
use lockify.State.Events.{Message, Errno, is_success, request_reply}
use lockify.State.{State, modify}
use lockify.Spec.{here, next, release}
use lockify.Op.{do_request, do_request_effects}
use lockify.Receive.{
  create_lkb, set_received_flags, receive_flags, set_request_args, receive_request_args,
  lvb_allocated, validate_master_nodeid,
}
use lockify.Receive.Master.{
  Lookup, set_mstcpy, is_accepted, give_up_request, serve_request, check_master, new_master_copy,
  receive_request,
}
use lockify.Refine.Frame.{Still-refl}
use lockify.Refine.Quiet.{Quiet, Quiet-refl, Quiet-trans, alike}
use lockify.Refine.Relation.{Inv, Refines, Refines-trans, Refines-refl, Quiet-Refines}
use lockify.Refine.Pending.{choose-Refines}
use lockify.Refine.Op.{do_request-Refines, do_request_effects-Refines}
use lockify.Refine.Send.{state_of, put_lkb-Quiet, choose-Quiet}
use lockify.Refine.Receive.{
  modify-Refines, allocated-Quiet, reply-Quiet, failure-Quiet, served-Refines,
}

-- The new lock holds nothing, whatever its id held before.
create_lkb-Refines : (s : State) (i : ℕ) → Inv s → Refines s (create_lkb s i)
unfolding create_lkb
create_lkb-Refines s i v = record {
  steps = next (here (λ j. refl)) (release i (λ j. ground arith));
  inv = record {
    listed = λ j h. ground (arith, v.listed j);
    mild = λ j x. ground (arith, v.mild j);
  };
}

new_master_copy-Refines :
    (s : State) (i : ℕ) (ms : Message) → Inv s → Refines s (new_master_copy s i ms)
unfolding new_master_copy receive_flags set_received_flags set_mstcpy create_lkb
new_master_copy-Refines s i ms v = Refines-trans (create_lkb-Refines s i v) λ w.
    Refines-trans
      (modify-Refines _ i (set_received_flags ms) refl (λ x. ground (arith, ==-refl i)) w)
      λ u. modify-Refines _ i set_mstcpy refl (λ x. ground (arith, ==-refl i)) u

new_master_copy-expedite :
    (s : State) (i : ℕ) (ms : Message)
    → ((new_master_copy s i ms).lkbs i).exflags.expedite ≡ ms.m_exflags.expedite
unfolding new_master_copy receive_flags set_received_flags set_mstcpy
new_master_copy-expedite s i ms = ground (arith, ==-refl i)

new_master_copy-grmode :
    (s : State) (i : ℕ) (ms : Message) → ((new_master_copy s i ms).lkbs i).grmode ≡ iv
unfolding new_master_copy receive_flags set_received_flags set_mstcpy create_lkb
new_master_copy-grmode s i ms = ground (arith, ==-refl i)

request_args-Refines :
    (s : State) (i : ℕ) (ms : Message)
    → (ms.m_exflags.expedite ≡ true → mode_lt nl ms.m_rqmode ≡ false)
    → Inv s
    → Refines s (receive_request_args (new_master_copy s i ms) i ms).0
unfolding receive_request_args set_request_args
request_args-Refines s i ms mild v = Refines-trans (new_master_copy-Refines s i ms v) λ w.
    Refines-trans
      (modify-Refines t i (set_request_args ms) (sym (new_master_copy-grmode s i ms))
        (λ x. mild (sym (new_master_copy-expedite s i ms) ∙ x)) w)
      λ u.
        choose-Refines state_of _ _ (not ((modify t i (set_request_args ms)).lkbs i).exflags.valblk)
          (λ _. Refines-refl _ u)
          λ _.
            choose-Refines state_of _ _ (lvb_allocated (modify t i (set_request_args ms)))
              (λ _. Quiet-Refines (allocated-Quiet _ i _) u)
              (λ _. Quiet-Refines (allocated-Quiet _ i _) u)
  where
    t : State
    t = new_master_copy s i ms

validate_master_nodeid-Quiet :
    (s : State) (from : ℕ) (n : Bool) → Quiet s (validate_master_nodeid s from n).0
unfolding validate_master_nodeid
validate_master_nodeid-Quiet s from n = choose-Quiet state_of _ _ n (Quiet-refl s) (
    choose-Quiet state_of _ _ (not (from == s.env.dir_nodeid)) (Quiet-refl s)
      (alike s _ (Still-refl s.lkbs) refl refl refl))

check_master-Quiet : (s : State) (from : ℕ) (n : Bool) → Quiet s (check_master s from n).0
unfolding check_master
check_master-Quiet s from n =
    choose-Quiet state_of _ _ (s.rsb.master_nodeid == s.env.our_nodeid) (Quiet-refl s)
      (validate_master_nodeid-Quiet s from n)

serve_request-Refines : (s : State) (i : ℕ) → Inv s → Refines s (serve_request s i).0
unfolding serve_request
serve_request-Refines s i v =
    Refines-trans
      (served-Refines (λ t e. do_request_effects t i e) _ (do_request-Refines s i v)
        (reply-Quiet _ i request_reply _) (λ t e. do_request_effects-Refines t i e))
      λ w.
        choose-Refines (λ (s : State). s) _ _ (is_accepted (do_request s i).1)
          (λ _. Refines-refl _ w) (λ _. Quiet-Refines (put_lkb-Quiet _ i) w)

given_up-Quiet :
    (s : State) (i : ℕ) (ms : Message) (e : Errno) → Quiet s (give_up_request s i ms e).0
given_up-Quiet s i ms e = Quiet-trans (put_lkb-Quiet s i) (failure-Quiet _ ms request_reply e)

pub receive_request-Refines :
    (s : State) (ms : Message) (l : Lookup)
    → (ms.m_exflags.expedite ≡ true → mode_lt nl ms.m_rqmode ≡ false)
    → Inv s
    → Refines s (receive_request s ms l).0
unfolding receive_request
receive_request-Refines s ms l mild v =
    choose-Refines state_of _ _ (not (is_success l.create_error))
      (λ _. Quiet-Refines (failure-Quiet s ms request_reply _) v)
      λ _. Refines-trans (request_args-Refines s l.id ms mild v) λ w.
        choose-Refines state_of _ _ (not (is_success r.1))
          (λ _. Quiet-Refines (given_up-Quiet t l.id ms _) w)
          λ _.
            choose-Refines state_of _ _ (not (is_success l.find_error))
              (λ _. Quiet-Refines (given_up-Quiet t l.id ms _) w)
              λ _.
                Refines-trans (Quiet-Refines (check_master-Quiet t ms.m_from l.no_directory) w) λ u.
                  choose-Refines state_of _ _ (not (is_success c.1))
                    (λ _. Quiet-Refines (given_up-Quiet c.0 l.id ms _) u)
                    (λ _. serve_request-Refines c.0 l.id u)
  where
    r : State × Errno
    r = receive_request_args (new_master_copy s l.id ms) l.id ms

    t : State
    t = r.0

    c : State × Errno
    c = check_master t ms.m_from l.no_directory
