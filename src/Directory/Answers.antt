-- ===== src/Directory/Answers.antt =====
-- What a lookup message is answered: fs/dlm/lock.c 3781-3803 and 4252-4270.
use lockify.Base.{
  ℕ, ◌+◌, ◌≡◌, refl, ap, Bool, true, false, not, ◌∷◌, Option, none, some, if◌then◌else◌, ◌==◌,
  length, arith,
}
use lockify.State.Events.{NodeId, node, node_eq, lookup_reply, Message, Errno, success, is_success}
use lockify.State.{State}
use lockify.Receive.Master.{Lookup, receive_request}
use lockify.Directory.{DirRsb, RsbTable, Reply, dlm_master_lookup}
use lockify.Directory.Known.{in_trees, master_of}
use lockify.Directory.Told.{lookup-Told}
use lockify.Directory.Handlers.{
  answer, send_lookup_reply, no_recovery, answer_lookup, receive_lookup,
}

-- The reply to a lookup tells the sender of the message, for its lock, the master that the table has.
pub record Tells (ms : Message) (m : Option NodeId) (sent : Message) : Type 0 where
  pub to : sent.m_to ≡ node ms.m_from
  pub mstype : sent.m_type ≡ lookup_reply
  pub lkid : sent.m_lkid ≡ ms.m_lkid
  pub result : sent.m_result ≡ success
  pub name : sent.m_extra ≡ ms.m_extra
  pub master : some sent.m_nodeid ≡ m

-- This node is the master and takes the message as a request, or the master is told.
pub data IsAnswered (s : State) (ms : Message) (l : Lookup) (m : Option NodeId) (t : State)
    : Type 0 where
  taken : m ≡ some (node s.env.our_nodeid) → t ≡ (receive_request s ms l).0 → IsAnswered s ms l m t
  told : (sent : Message) → t.sent ≡ sent ∷ s.sent → Tells ms m sent → IsAnswered s ms l m t

abbrev is_known : Option NodeId → Bool
is_known none = false
is_known (some n) = true

answer-Tells :
    (s : State) (ms : Message) (n : NodeId) → Tells ms (some n) (answer s ms lookup_reply n success)
unfolding answer
answer-Tells s ms n = record {
  to = refl;
  mstype = refl;
  lkid = refl;
  result = refl;
  name = refl;
  master = refl;
}

node_eq-≡ : (n : NodeId) (k : ℕ) → node_eq n (node k) ≡ true → n ≡ node k
node_eq-≡ NodeId.unset k h = absurd (ground (arith, h))
node_eq-≡ (node a) k h = ap (λ (j : ℕ). node j) (ground (arith, h))

is_success-≡ : (e : Errno) → is_success e ≡ true → e ≡ success
is_success-≡ success h = refl
is_success-≡ _ h = absurd (ground (arith, h))

send_lookup_reply-IsAnswered :
    (s : State) (ms : Message) (l : Lookup) (n : NodeId)
    → s.env.get_mhandle s.mhandles ≡ true
    → IsAnswered s ms l (some n) (send_lookup_reply s ms n success)
unfolding send_lookup_reply
send_lookup_reply-IsAnswered s ms l n g = rw g (
    IsAnswered.told (answer (record s { mhandles = s.mhandles + 1 }) ms lookup_reply n success) refl
      (answer-Tells (record s { mhandles = s.mhandles + 1 }) ms n))

answer_lookup-IsAnswered :
    (s : State) (ms : Message) (l : Lookup) (stack : NodeId) (r : Reply) (o : Option NodeId)
    → s.env.get_mhandle s.mhandles ≡ true
    → is_success r.error ≡ true
    → r.r_nodeid ≡ o
    → is_known o ≡ true
    → IsAnswered s ms l o (answer_lookup s ms l stack r)
unfolding answer_lookup
answer_lookup-IsAnswered s ms l stack r (some n) g e p k =
    rw (p, is_success-≡ r.error e) (by_node (node_eq n (node s.env.our_nodeid)) refl)
  where
    by_node :
        (b : Bool)
        → node_eq n (node s.env.our_nodeid) ≡ b
        → IsAnswered s ms l
            (some n)
            (if b then (receive_request s ms l).0 else send_lookup_reply s ms n success)
    by_node true q =
        IsAnswered.taken (ap (λ (k : NodeId). some k) (node_eq-≡ n s.env.our_nodeid q)) refl
    by_node false q = send_lookup_reply-IsAnswered s ms l n g
answer_lookup-IsAnswered s ms l stack r none g e p k = absurd (ground (arith, k))

master-is_known :
    (keep toss : Option DirRsb)
    → in_trees (λ (r : DirRsb). not (r.master_nodeid == 0)) false keep toss ≡ true
    → is_known (in_trees (λ (r : DirRsb). some (node r.master_nodeid)) none keep toss) ≡ true
master-is_known (some r) toss h = refl
master-is_known none (some r) h = refl
master-is_known none none h = absurd (ground (arith, h))

-- With a message handle, and if dlm_master_lookup succeeds for the sender of a lookup message,
-- which is not 0, then either the table has this node as the master, and the message is handled
-- as a request, or one new message is sent: a lookup reply to the sender, without an error, for
-- its lock and with its name, that tells the master that the table then has.
pub receive_lookup-IsAnswered :
    (fuel : ℕ) (s : State) (t : RsbTable) (ms : Message) (l : Lookup) (stack : NodeId)
    → s.env.get_mhandle s.mhandles ≡ true
    → (ms.m_from == 0) ≡ false
    → is_success (dlm_master_lookup fuel t ms.m_from (length ms.m_extra) no_recovery).error ≡ true
    → IsAnswered s ms l
        (master_of (receive_lookup fuel s t ms l stack).1)
        (receive_lookup fuel s t ms l stack).0
unfolding receive_lookup
receive_lookup-IsAnswered fuel s t ms l stack g z h =
    let r = dlm_master_lookup fuel t ms.m_from (length ms.m_extra) no_recovery in
    let told = lookup-Told fuel t ms.m_from (length ms.m_extra) no_recovery refl z h in
    answer_lookup-IsAnswered s ms l stack r (master_of r.after) g h told.0
      (master-is_known r.after.keep r.after.toss told.1)
