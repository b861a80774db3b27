-- ===== src/Receive/Strangers.antt =====
-- Messages about a lock from a node that has nothing to do with it: fs/dlm/lock.c 3911-3970.
use lockify.Base.{
  ℕ, ◌+◌, ◌≡◌, ◌≤◌, refl, subst, sym, ap, ◌∙◌, Bool, true, false, not, if◌then◌else◌, ◌==◌, ==-refl,
  arith,
}
use lockify.State.Events.{
  MsgType, convert_msg, unlock, request_reply, convert_reply, unlock_reply, cancel_reply, grant,
  bast, node, node_eq, is_unset, Message, Errno, is_success,
}
use lockify.State.{State, Lkb}
use lockify.State.Set.{add_ref, drop_ref, put_lkb}
use lockify.Receive.{reply_failure, find_lkb, validate_message, validate_type}
use lockify.Receive.Master.{
  with_remid, put_found, Lookup, receive_convert, take_convert, receive_unlock, take_unlock,
}
use lockify.Receive.Reply.{
  with_valid, if_awaited, unlock_replied, cancel_replied, take_grant, take_bast, take_request_reply,
  receive_request_reply, receive_convert_reply, receive_unlock_reply, receive_cancel_reply,
  receive_grant, receive_bast,
}
use lockify.Send.{convert_replied}
use lockify.Receive.Dispatch.{receive_message, dispatch}

abbrev state_of : State × Errno → State
state_of r = r.0

-- The types that are validated before anything is done. A cancel is not: its flags are taken first.
abbrev pub is_validated : MsgType → Bool
is_validated convert_msg = true
is_validated unlock = true
is_validated request_reply = true
is_validated convert_reply = true
is_validated unlock_reply = true
is_validated cancel_reply = true
is_validated grant = true
is_validated bast = true
is_validated _ = false

-- The message names a lock that is there, and is not from the node of that lock.
pub record IsStranger (s : State) (ms : Message) : Type 0 where
  pub present : s.present ms.m_remid ≡ true
  pub remid : ((s.lkbs ms.m_remid).remid == ms.m_lkid) ≡ true
  pub held : 1 ≤ (s.lkbs ms.m_remid).ref
  pub other : node_eq (s.lkbs ms.m_remid).nodeid (node ms.m_from) ≡ false
  pub known : is_unset (s.lkbs ms.m_remid).nodeid ≡ false

-- Nothing has changed, and nobody has been told anything.
pub record IsUntouched (s t : State) : Type 0 where
  pub lkbs : (j : ℕ) → t.lkbs j ≡ s.lkbs j
  pub present : (j : ℕ) → t.present j ≡ s.present j
  pub rsb : t.rsb ≡ s.rsb
  pub waiters : t.waiters ≡ s.waiters
  pub sent : t.sent ≡ s.sent
  pub callbacks : t.callbacks ≡ s.callbacks

refused_type :
    (m : MsgType) (l : Lkb) (from : ℕ)
    → is_validated m ≡ true
    → node_eq l.nodeid (node from) ≡ false
    → is_unset l.nodeid ≡ false
    → is_success (validate_type m l from) ≡ false
refused_type convert_msg l from v o k = ground (arith, o)
refused_type unlock l from v o k = ground (arith, o)
refused_type request_reply l from v o k = ground (arith, o, k)
refused_type convert_reply l from v o k = ground (arith, o)
refused_type unlock_reply l from v o k = ground (arith, o)
refused_type cancel_reply l from v o k = ground (arith, o)
refused_type grant l from v o k = ground (arith, o)
refused_type bast l from v o k = ground (arith, o)
refused_type _ l from v o k = absurd (ground (arith, v))

refused :
    (s : State) (ms : Message)
    → is_validated ms.m_type ≡ true
    → IsStranger s ms
    → is_success (validate_message ((find_lkb s ms.m_remid).lkbs ms.m_remid) ms) ≡ false
unfolding validate_message add_ref
refused s ms v x = ground (
  arith,
  ==-refl ms.m_remid,
  refused_type ms.m_type (record (s.lkbs ms.m_remid) { ref = (s.lkbs ms.m_remid).ref + 1 })
      ms.m_from v x.other x.known,
)

-- A reference is taken and put.
found_and_put : (s : State) (i : ℕ) → 1 ≤ (s.lkbs i).ref → IsUntouched s (put_lkb (find_lkb s i) i)
unfolding put_lkb add_ref drop_ref
found_and_put s i h = record {
  lkbs = λ j. ground (arith, ==-refl i);
  present = λ j. ground (arith, ==-refl i);
  rsb = ground (arith, ==-refl i);
  waiters = ground (arith, ==-refl i);
  sent = ground (arith, ==-refl i);
  callbacks = ground (arith, ==-refl i);
}

unheeded :
    (s : State) (ms : Message) (work : State → ℕ → State)
    → s.present ms.m_remid ≡ true
    → is_success (validate_message ((find_lkb s ms.m_remid).lkbs ms.m_remid) ms) ≡ false
    → (with_valid s ms work).0 ≡ put_lkb (find_lkb s ms.m_remid) ms.m_remid
unheeded s ms work p r = ground (arith, p, r)

untaken :
    (s : State) (ms : Message) (work : State → ℕ → State) (m : MsgType)
    → IsStranger s ms
    → work (find_lkb s ms.m_remid) ms.m_remid ≡ find_lkb s ms.m_remid
    → (with_remid s ms (λ t i. put_found (work t i) i) (λ t error. reply_failure t ms m error)).0
      ≡ put_lkb (find_lkb s ms.m_remid) ms.m_remid
unfolding add_ref
untaken s ms work m x e =
    ap state_of (pick (not (s.present ms.m_remid)) _ _ (ap not x.present))
    ∙ ap state_of (
        pick (not (((find_lkb s ms.m_remid).lkbs ms.m_remid).remid == ms.m_lkid)) _ _
          (ground (arith, ==-refl ms.m_remid, x.remid)))
    ∙ ap (λ (t : State). put_lkb t ms.m_remid) e
  where
    pick : {A : Type 0} (b : Bool) (y z : A) → b ≡ false → (if b then y else z) ≡ z
    pick true y z h = absurd (ground (arith, h))
    pick false y z h = refl

dispatched :
    (m : MsgType) (s : State) (ms : Message) (l : Lookup)
    → is_validated m ≡ true
    → IsStranger s ms
    → is_success (validate_message ((find_lkb s ms.m_remid).lkbs ms.m_remid) ms) ≡ false
    → dispatch m s ms l ≡ put_lkb (find_lkb s ms.m_remid) ms.m_remid
unfolding receive_convert receive_unlock receive_request_reply receive_convert_reply
    receive_unlock_reply receive_cancel_reply receive_grant receive_bast take_convert take_unlock
dispatched convert_msg s ms l v x r =
    untaken s ms (λ t i. take_convert t i ms) convert_reply x (ground (arith, r))
dispatched unlock s ms l v x r =
    untaken s ms (λ t i. take_unlock t i ms) unlock_reply x (ground (arith, r))
dispatched request_reply s ms l v x r = unheeded s ms (λ t i. take_request_reply t i ms) x.present r
dispatched convert_reply s ms l v x r =
    unheeded s ms (λ t i. if_awaited (λ u j m error. convert_replied u j m false error) t i ms)
      x.present r
dispatched unlock_reply s ms l v x r =
    unheeded s ms (λ t i. if_awaited unlock_replied t i ms) x.present r
dispatched cancel_reply s ms l v x r =
    unheeded s ms (λ t i. if_awaited cancel_replied t i ms) x.present r
dispatched grant s ms l v x r = unheeded s ms (λ t i. take_grant t i ms) x.present r
dispatched bast s ms l v x r = unheeded s ms (λ t i. take_bast t i ms) x.present r
dispatched _ s ms l v x r = absurd (ground (arith, v))

-- A conversion, an unlock, a grant, a blocking callback or a reply to a request, a conversion,
-- an unlock or a cancel, about a lock that is there, has a reference and a node, and whose id
-- at that node (lkb_remid) is the id that the message says it comes from (m_lkid), but from
-- another node, changes no lock, queue, waiter or message, and calls nobody back, whether the
-- sender is a member or not.
pub receive_message-IsUntouched :
    (s : State) (ms : Message) (l : Lookup) (member : Bool)
    → is_validated ms.m_type ≡ true
    → IsStranger s ms
    → IsUntouched s (receive_message s ms l member)
unfolding receive_message
receive_message-IsUntouched s ms l false v x = record {
  lkbs = λ j. refl;
  present = λ j. refl;
  rsb = refl;
  waiters = refl;
  sent = refl;
  callbacks = refl;
}
receive_message-IsUntouched s ms l true v x =
    subst (IsUntouched s) (sym (dispatched ms.m_type s ms l v x (refused s ms v x)))
      (found_and_put s ms.m_remid x.held)
