-- ===== src/Refine/Receive.antt =====
-- What the handlers of the master do implements the table: fs/dlm/lock.c 3974-4190.
use lockify.Base.{
  ℕ, ◌+◌, ◌≡◌, refl, false, not, if◌then◌else◌, ◌==◌, ==-refl, arith, Option, none, some, List,
}
use lockify.State.Events.{
  Message, MsgType, Errno, is_success, is_granted, convert_reply, unlock_reply, cancel_reply,
  success, enoent, enomem,
}
use lockify.Lvb.{zeros}
use lockify.State.{State, Lkb, modify, down_conversion}
use lockify.Spec.{here}
use lockify.Op.{do_convert_effects, do_unlock_effects, do_cancel_effects}
use lockify.Receive.{
  set_received_flags, receive_flags, receive_lvb, set_lvbptr, set_convert_args,
  receive_convert_args, copy_lvb, lvb_allocated, count_lvb, receive_unlock_args, validate_message,
  send_common_reply, set_local, setup_local_lkb, reply_failure, find_lkb,
}
use lockify.Receive.Master.{
  with_remid, put_found, serve_convert, take_convert, receive_convert, serve_unlock, take_unlock,
  receive_unlock, serve_cancel, take_cancel, receive_cancel,
}
use lockify.Refine.Frame.{Still-refl}
use lockify.Refine.Quiet.{Quiet, Quiet-refl, Quiet-trans, alike}
use lockify.Refine.Relation.{IsMild, Inv, Refines, Refines-trans, Refines-refl, Quiet-Refines}
use lockify.Refine.Pending.{choose-Refines}
use lockify.Refine.Op.{
  do_convert-Refines, do_convert_effects-Refines, do_unlock-Refines, do_unlock_effects-Refines,
  do_cancel-Refines, do_cancel_effects-Refines,
}
use lockify.Refine.Send.{state_of, modify-Quiet, hold-Quiet, put_lkb-Quiet, choose-Quiet}

-- A write that leaves the granted mode alone, and a request that asks for no more than NL where it
-- is expedited.
pub modify-Refines :
    (s : State) (i : ℕ) (f : Lkb → Lkb)
    → (f (s.lkbs i)).grmode ≡ (s.lkbs i).grmode
    → IsMild (f (s.lkbs i))
    → Inv s
    → Refines s (modify s i f)
modify-Refines s i f e m v = record {
  steps = here (λ j. ground (arith, e));
  inv = record {
    listed = λ j h. ground (arith, e, v.listed j);
    mild = λ j x. ground (arith, m, v.mild j);
  };
}

-- A message that a master takes about a lock that it has: none of them is expedited.
flags-Refines :
    (s : State) (i : ℕ) (ms : Message)
    → ms.m_exflags.expedite ≡ false
    → Inv s
    → Refines s (receive_flags s i ms)
unfolding receive_flags set_received_flags
flags-Refines s i ms e v =
    modify-Refines s i (set_received_flags ms) refl (λ x. absurd (ground (arith, e, x))) v

lvbptr-Quiet : (s : State) (i : ℕ) (p : Option (List ℕ)) → Quiet s (modify s i (set_lvbptr p))
unfolding set_lvbptr
lvbptr-Quiet s i p = modify-Quiet s i (set_lvbptr p) refl refl refl refl

pub allocated-Quiet :
    (s : State) (i : ℕ) (p : Option (List ℕ))
    → Quiet s (modify (record s { lvb_allocs = s.lvb_allocs + 1 }) i (set_lvbptr p))
allocated-Quiet s i p =
    Quiet-trans (alike s _ (Still-refl s.lkbs) refl refl refl) (lvbptr-Quiet _ i p)

receive_lvb-Quiet : (s : State) (i : ℕ) (ms : Message) → Quiet s (receive_lvb s i ms).0
unfolding receive_lvb
receive_lvb-Quiet s i ms =
    choose-Quiet state_of _ _ (not (s.lkbs i).exflags.valblk) (Quiet-refl s)
      (by_block (s.lkbs i).lvbptr)
  where
    by_block :
        (o : Option (List ℕ))
        → Quiet s
            (elim o as (λ _. State × Errno) [
              | some dst ↦ (copy_lvb s i ms dst, success)
              | none ↦
                  if lvb_allocated s
                  then (copy_lvb (count_lvb s) i ms (zeros s.env.lvblen), success)
                  else (count_lvb s, enomem)
            ]).0
    by_block (some dst) = lvbptr-Quiet s i _
    by_block none =
        choose-Quiet state_of _ _ (lvb_allocated s) (allocated-Quiet s i _)
          (alike s _ (Still-refl s.lkbs) refl refl refl)

flags-expedite :
    (s : State) (i : ℕ) (ms : Message)
    → ((receive_flags s i ms).lkbs i).exflags.expedite ≡ ms.m_exflags.expedite
unfolding receive_flags set_received_flags
flags-expedite s i ms = rw (==-refl i) refl

convert_args-Refines :
    (s : State) (i : ℕ) (ms : Message)
    → ms.m_exflags.expedite ≡ false
    → Inv s
    → Refines s (receive_convert_args (receive_flags s i ms) i ms).0
unfolding receive_convert_args set_convert_args
convert_args-Refines s i ms e v = Refines-trans (flags-Refines s i ms e v) λ w.
    choose-Refines state_of _ _ (not (is_granted (t.lkbs i).status)) (λ _. Refines-refl t w)
      λ _.
        choose-Refines state_of _ _ (is_success (receive_lvb t i ms).1)
          (λ _. Refines-trans (Quiet-Refines q w) (
            modify-Refines _ i (set_convert_args ms) refl
              (λ x. absurd (ground (arith, e, x, q.still.keeps.fl i, flags-expedite s i ms)))))
          (λ _. Quiet-Refines q w)
  where
    t : State
    t = receive_flags s i ms

    q : Quiet t (receive_lvb t i ms).0
    q = receive_lvb-Quiet t i ms

pub reply-Quiet :
    (s : State) (i : ℕ) (m : MsgType) (e : Errno) → Quiet s (send_common_reply s i m e)
unfolding send_common_reply
reply-Quiet s i m e =
    choose-Quiet (λ (s : State). s) _ _ (s.env.get_mhandle s.mhandles)
      (alike s _ (Still-refl s.lkbs) refl refl refl) (alike s _ (Still-refl s.lkbs) refl refl refl)

pub failure-Quiet :
    (s : State) (ms : Message) (m : MsgType) (e : Errno) → Quiet s (reply_failure s ms m e).0
unfolding setup_local_lkb set_local
failure-Quiet s ms m e =
    Quiet-trans (modify-Quiet s 0 (set_local ms) refl refl refl refl) (reply-Quiet _ 0 m e)

-- An operation, the reply to it and its effects.
pub served-Refines :
    {s t u : State} (effects : State → Errno → State) (e : Errno)
    → Refines s t
    → Quiet t u
    → ((u : State) (e : Errno) → Inv u → Refines u (effects u e))
    → Refines s (effects u e)
served-Refines effects e r q f = Refines-trans r λ w. Refines-trans (Quiet-Refines q w) (f _ e)

serve_convert-Refines : (s : State) (i : ℕ) → Inv s → Refines s (serve_convert s i)
unfolding serve_convert
serve_convert-Refines s i v =
    served-Refines (λ t e. do_convert_effects t i e) _ (do_convert-Refines s i v)
      (choose-Quiet (λ (s : State). s) _ _ (down_conversion (s.lkbs i)) (Quiet-refl _)
        (reply-Quiet _ i convert_reply _))
      (λ t e. do_convert_effects-Refines t i e)

serve_unlock-Refines : (s : State) (i : ℕ) → Inv s → Refines s (serve_unlock s i)
unfolding serve_unlock
serve_unlock-Refines s i v =
    served-Refines (λ t e. do_unlock_effects t i e) _ (do_unlock-Refines s i v)
      (reply-Quiet _ i unlock_reply _) (λ t e. do_unlock_effects-Refines t i e)

serve_cancel-Refines : (s : State) (i : ℕ) → Inv s → Refines s (serve_cancel s i)
unfolding serve_cancel
serve_cancel-Refines s i v =
    served-Refines (λ t e. do_cancel_effects t i e) _ (do_cancel-Refines s i v)
      (reply-Quiet _ i cancel_reply _) (λ t e. do_cancel_effects-Refines t i e)

-- A valid message is worked on; any other leaves the resource alone.
taken-Refines :
    {s : State} (x : Errno) (u : State × Errno) (work : State → State)
    (reply : State → Errno → State)
    → Inv s
    → Refines s u.0
    → ((w : State) → Inv w → Refines w (work w))
    → ((w : State) (e : Errno) → Quiet w (reply w e))
    → Refines s
        (if not (is_success x) then s else if is_success u.1 then work u.0 else reply u.0 u.1)
taken-Refines {s} x u work reply v r f q =
    choose-Refines (λ (s : State). s) _ _ (not (is_success x)) (λ _. Refines-refl s v)
      λ _.
        choose-Refines (λ (s : State). s) _ _ (is_success u.1) (λ _. Refines-trans r (f u.0))
          (λ _. Refines-trans r (Quiet-Refines (q u.0 u.1)))

take_convert-Refines :
    (s : State) (i : ℕ) (ms : Message)
    → ms.m_exflags.expedite ≡ false
    → Inv s
    → Refines s (take_convert s i ms)
unfolding take_convert
take_convert-Refines s i ms e v =
    taken-Refines (validate_message (s.lkbs i) ms)
      (receive_convert_args (receive_flags s i ms) i ms) (λ t. serve_convert t i)
      (λ t error. send_common_reply t i convert_reply error) v (convert_args-Refines s i ms e v)
      (λ t. serve_convert-Refines t i) (λ t error. reply-Quiet t i convert_reply error)

take_unlock-Refines :
    (s : State) (i : ℕ) (ms : Message)
    → ms.m_exflags.expedite ≡ false
    → Inv s
    → Refines s (take_unlock s i ms)
unfolding take_unlock receive_unlock_args
take_unlock-Refines s i ms e v =
    taken-Refines (validate_message (s.lkbs i) ms) (receive_unlock_args (receive_flags s i ms) i ms)
      (λ t. serve_unlock t i) (λ t error. send_common_reply t i unlock_reply error) v
      (Refines-trans (flags-Refines s i ms e v) (Quiet-Refines (receive_lvb-Quiet _ i ms)))
      (λ t. serve_unlock-Refines t i) (λ t error. reply-Quiet t i unlock_reply error)

take_cancel-Refines :
    (s : State) (i : ℕ) (ms : Message)
    → ms.m_exflags.expedite ≡ false
    → Inv s
    → Refines s (take_cancel s i ms)
unfolding take_cancel
take_cancel-Refines s i ms e v = Refines-trans (flags-Refines s i ms e v) λ w.
    choose-Refines (λ (s : State). s) _ _
      (is_success (validate_message ((receive_flags s i ms).lkbs i) ms))
      (λ _. serve_cancel-Refines _ i w) (λ _. Refines-refl _ w)

-- A lock that the message names is found, worked on and put, or a failure is replied.
found-Refines :
    (s : State) (ms : Message) (work : State → ℕ → State) (m : MsgType)
    → Inv s
    → ((t : State) (i : ℕ) → Inv t → Refines t (work t i))
    → Refines s
        (with_remid s ms (λ t i. put_found (work t i) i) (λ t error. reply_failure t ms m error)).0
found-Refines s ms work m v f =
    choose-Refines state_of _ _ (not (s.present ms.m_remid))
      (λ _. Quiet-Refines (failure-Quiet s ms m enoent) v)
      λ _. Refines-trans (Quiet-Refines (hold-Quiet s ms.m_remid) v) λ w.
        choose-Refines state_of _ _ (not ((t.lkbs ms.m_remid).remid == ms.m_lkid))
          (λ _.
            Quiet-Refines (Quiet-trans (put_lkb-Quiet t ms.m_remid) (failure-Quiet _ ms m enoent))
              w)
          (λ _. Refines-trans (f t ms.m_remid w) (Quiet-Refines (put_lkb-Quiet _ ms.m_remid)))
  where
    t : State
    t = find_lkb s ms.m_remid

pub receive_convert-Refines :
    (s : State) (ms : Message)
    → ms.m_exflags.expedite ≡ false
    → Inv s
    → Refines s (receive_convert s ms).0
unfolding receive_convert
receive_convert-Refines s ms e v =
    found-Refines s ms (λ t i. take_convert t i ms) convert_reply v
      (λ t i. take_convert-Refines t i ms e)

pub receive_unlock-Refines :
    (s : State) (ms : Message)
    → ms.m_exflags.expedite ≡ false
    → Inv s
    → Refines s (receive_unlock s ms).0
unfolding receive_unlock
receive_unlock-Refines s ms e v =
    found-Refines s ms (λ t i. take_unlock t i ms) unlock_reply v
      (λ t i. take_unlock-Refines t i ms e)

pub receive_cancel-Refines :
    (s : State) (ms : Message)
    → ms.m_exflags.expedite ≡ false
    → Inv s
    → Refines s (receive_cancel s ms).0
unfolding receive_cancel
receive_cancel-Refines s ms e v =
    choose-Refines state_of _ _ (s.present ms.m_remid)
      (λ _. Refines-trans (Quiet-Refines (hold-Quiet s ms.m_remid) v) λ w.
        Refines-trans (take_cancel-Refines _ ms.m_remid ms e w)
          (Quiet-Refines (put_lkb-Quiet _ ms.m_remid)))
      (λ _. Quiet-Refines (failure-Quiet s ms cancel_reply enoent) v)
