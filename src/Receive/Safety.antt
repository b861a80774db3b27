-- ===== src/Receive/Safety.antt =====
-- Calls of users and messages of other nodes, in any order: fs/dlm/lock.c 3157-3390 and 3974-5026.
use lockify.Base.{ℕ, ◌≡◌, Bool, true, false, not, ◌&&◌, ◌||◌, List, [], ◌∷◌, arith}
use lockify.Modes.{nl, mode_lt}
use lockify.State.Events.{MsgType, request, convert_msg, unlock, cancel_msg, Message}
use lockify.State.{State}
use lockify.Api.Calls.{IsSafe, Refines-IsSafe}
use lockify.Api.Safety.{Call, perform, perform-Refines}
use lockify.Receive.Master.{Lookup}
use lockify.Receive.Dispatch.{receive_message, dispatch}
use lockify.Refine.Relation.{Inv, Refines, Refines-refl}
use lockify.Refine.Receive.{receive_convert-Refines, receive_unlock-Refines, receive_cancel-Refines}
use lockify.Refine.Request.{receive_request-Refines}

-- What comes to a node: a call for a lock, or a message, with what other code makes of it.
pub data Event : Type 0 where
  call : ℕ → Call → Event
  message : Message → Lookup → (member : Bool) → Event

unfoldable pub handle : State → Event → State
handle s (Event.call i c) = perform s (i, c)
handle s (Event.message ms l member) = receive_message s ms l member

unfoldable pub run_all : State → List Event → State
run_all s [] = s
run_all s (e ∷ es) = run_all (handle s e) es

-- A message to the master of a resource, from a node that keeps to `set_lock_args`: what is
-- expedited is a new request, for no more than NL.
abbrev keeps_rules : MsgType → Message → Bool
keeps_rules request ms = not ms.m_exflags.expedite || not (mode_lt nl ms.m_rqmode)
keeps_rules convert_msg ms = not ms.m_exflags.expedite
keeps_rules unlock ms = not ms.m_exflags.expedite
keeps_rules cancel_msg ms = not ms.m_exflags.expedite
keeps_rules _ ms = false

abbrev pub by_rules : List Event → Bool
by_rules [] = true
by_rules (Event.call i c ∷ es) = by_rules es
by_rules (Event.message ms l member ∷ es) = keeps_rules ms.m_type ms && by_rules es

dispatch-Refines :
    (m : MsgType) (s : State) (ms : Message) (l : Lookup)
    → keeps_rules m ms ≡ true
    → Inv s
    → Refines s (dispatch m s ms l)
dispatch-Refines request s ms l k v = receive_request-Refines s ms l (λ x. ground (arith, k, x)) v
dispatch-Refines convert_msg s ms l k v = receive_convert-Refines s ms (ground (arith, k)) v
dispatch-Refines unlock s ms l k v = receive_unlock-Refines s ms (ground (arith, k)) v
dispatch-Refines cancel_msg s ms l k v = receive_cancel-Refines s ms (ground (arith, k)) v
dispatch-Refines _ s ms l k v = absurd (ground (arith, k))

message-Refines :
    (s : State) (ms : Message) (l : Lookup) (member : Bool)
    → keeps_rules ms.m_type ms ≡ true
    → Inv s
    → Refines s (receive_message s ms l member)
unfolding receive_message
message-Refines s ms l true k v = dispatch-Refines ms.m_type s ms l k v
message-Refines s ms l false k v = Refines-refl s v

-- On the node that is the master, whatever calls of users and messages of other nodes come, in
-- whatever order, from a safe state, the invariant of the resource holds and any two of its
-- locks hold compatible modes, if each message is a request, a conversion, an unlock or a
-- cancel, and EXPEDITE is only with a new request for no more than NL, as set_lock_args has it.
pub run_all-IsSafe :
    (s : State) (es : List Event) → by_rules es ≡ true → IsSafe s → IsSafe (run_all s es)
unfolding run_all handle
run_all-IsSafe s [] k v = v
run_all-IsSafe s (Event.call i c ∷ es) k v =
    run_all-IsSafe (perform s (i, c)) es k (Refines-IsSafe v (perform-Refines s (i, c) v))
run_all-IsSafe s (Event.message ms l member ∷ es) k v =
    run_all-IsSafe (receive_message s ms l member) es (ground (arith, k))
      (Refines-IsSafe v (message-Refines s ms l member (ground (arith, k)) v.inv))
