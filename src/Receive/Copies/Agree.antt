-- ===== src/Receive/Copies/Agree.antt =====
-- The reply to a conversion brings the owner's copy to where the master's is: fs/dlm/lock.c
-- 2964-3024 and 4487-4529.
use lockify.Base.{ℕ, ◌≡◌, refl, sym, ◌∙◌, Bool, true, false, if◌then◌else◌, ==-refl, arith}
use lockify.Modes.{Mode}
use lockify.State.Events.{
  LkSts, Message, Errno, success, einprogress, eagain, edeadlk, convert_reply,
}
use lockify.State.{State}
use lockify.State.Set.{set_grmode, set_reply_flags}
use lockify.Wire.{send_args}
use lockify.Lvb.{set_lvb_lock_pc}
use lockify.Grant.{grant_lock_pc, munge_demoted}
use lockify.Op.{do_convert}
use lockify.Send.{receive_flags_reply, follow_demotion, convert_replied}
use lockify.Refine.Quiet.{Quiet, queue_cast-Quiet, set_lvb_lock_pc-Quiet}
use lockify.Refine.Send.{modify-Quiet}
use lockify.Receive.Copies.{
  Shows, Quiet-Shows, requeued-Shows, reverted-Shows, After, Asks, IsPlain, Quiet-Asks, held-After,
  do_convert-After,
}

abbrev pub SameCopies : State → ℕ → State → ℕ → Type 0
SameCopies s i t j =
    ((s.lkbs i).grmode ≡ (t.lkbs j).grmode) × ((s.lkbs i).status ≡ (t.lkbs j).status)

flags-Quiet : (s : State) (i : ℕ) (ms : Message) → Quiet s (receive_flags_reply s i ms false)
unfolding receive_flags_reply set_reply_flags
flags-Quiet s i ms = modify-Quiet s i (set_reply_flags ms.m_sbflags ms.m_user) refl refl refl refl

flags-demoted :
    (s : State) (i : ℕ) (ms : Message)
    → ((receive_flags_reply s i ms false).lkbs i).sbflags.demoted ≡ ms.m_sbflags.demoted
unfolding receive_flags_reply set_reply_flags
flags-demoted s i ms = rw (==-refl i) refl

-- A lock that asks still asks for the same after it is demoted.
demoted-Asks :
    (s : State) (i : ℕ) (g m : Mode)
    → Asks s i g m
    → Asks (follow_demotion s i) i ((follow_demotion s i).lkbs i).grmode m
unfolding munge_demoted set_grmode
demoted-Asks s i g m v = record {
  holds = refl;
  asks = ground (arith, ==-refl i, v.asks);
  granted = ground (arith, ==-refl i, v.granted);
}

pub granted_copy :
    (s : State) (i : ℕ) (g m : Mode) (ms : Message)
    → Asks s i g m
    → Shows (convert_replied s i ms false success) i m LkSts.granted
unfolding convert_replied grant_lock_pc
granted_copy s i g m ms v = Quiet-Shows i m LkSts.granted (queue_cast-Quiet _ i success) (
    held-After (set_lvb_lock_pc t i ms) i _ m (
      Quiet-Asks i _ m (set_lvb_lock_pc-Quiet t i ms)
        (demoted-Asks _ i g m (Quiet-Asks i g m (flags-Quiet s i ms) v))))
  where
    t : State
    t = follow_demotion (receive_flags_reply s i ms false) i

queued_copy :
    (s : State) (i : ℕ) (g m : Mode) (ms : Message)
    → ms.m_sbflags.demoted ≡ false
    → Asks s i g m
    → Shows (convert_replied s i ms false einprogress) i g LkSts.convert
unfolding convert_replied
queued_copy s i g m ms d v =
    requeued-Shows (follow_demotion t i) i g LkSts.granted
      (undemoted (t.lkbs i).sbflags.demoted (flags-demoted s i ms ∙ d))
  where
    t : State
    t = receive_flags_reply s i ms false

    w : Asks t i g m
    w = Quiet-Asks i g m (flags-Quiet s i ms) v

    undemoted :
        (b : Bool) → b ≡ false → Shows (if b then munge_demoted t i else t) i g LkSts.granted
    undemoted true h = absurd (ground (arith, h))
    undemoted false h = (w.holds, w.granted)

refused_copy :
    (s : State) (i : ℕ) (g m : Mode) (ms : Message)
    → Asks s i g m
    → Shows (convert_replied s i ms false eagain) i g LkSts.granted
unfolding convert_replied
refused_copy s i g m ms v =
    Quiet-Shows i g LkSts.granted (queue_cast-Quiet s i eagain) (v.holds, v.granted)

reverted_copy :
    (s : State) (i : ℕ) (g m : Mode) (ms : Message)
    → Asks s i g m
    → Shows (convert_replied s i ms false edeadlk) i g LkSts.granted
unfolding convert_replied
reverted_copy s i g m ms v =
    let w = Quiet-Asks i g m (flags-Quiet s i ms) v in
    Quiet-Shows i g LkSts.granted (queue_cast-Quiet _ i edeadlk)
      (reverted-Shows (receive_flags_reply s i ms false) i g (w.holds, w.granted))

agree :
    (e : Errno) (s t : State) (i j : ℕ) (g m : Mode) (ms : Message)
    → Asks s i g m
    → (t.lkbs j).sbflags.demoted ≡ ms.m_sbflags.demoted
    → After t j g m e
    → SameCopies (convert_replied s i ms false e) i t j
agree success s t i j g m ms v d a =
    let x = granted_copy s i g m ms v in (x.0 ∙ sym a.0, x.1 ∙ sym a.1)
agree einprogress s t i j g m ms v d a =
    let x = queued_copy s i g m ms (sym d ∙ a.1) v in (x.0 ∙ sym a.0.0, x.1 ∙ sym a.0.1)
agree eagain s t i j g m ms v d a =
    let x = refused_copy s i g m ms v in (x.0 ∙ sym a.0, x.1 ∙ sym a.1)
agree edeadlk s t i j g m ms v d a =
    let x = reverted_copy s i g m ms v in (x.0 ∙ sym a.0, x.1 ∙ sym a.1)
agree _ s t i j g m ms v d a = absurd (ground (arith, a))

-- What `serve_convert` sends to the owner of the lock.
abbrev pub convert_answer : State → ℕ → Message
convert_answer t j =
    let r = do_convert t j in
    record (send_args r.0 j convert_reply (r.0.lkbs j).nodeid) { m_result = r.1 }

-- If the owner's copy and the master's copy of a granted lock hold the same mode and ask for
-- the same, and the conversion has none of CONVDEADLK, ALTPR and ALTCW, then after do_convert
-- on the master and the handling of its reply by the owner the two copies hold the same mode
-- and stand on the same queue, whether it was granted, queued, refused or found in a deadlock.
pub do_convert-convert_replied :
    (s t : State) (i j : ℕ) (g m : Mode)
    → Asks s i g m
    → Asks t j g m
    → IsPlain (t.lkbs j)
    → SameCopies
        (convert_replied s i (convert_answer t j) false (do_convert t j).1)
        i
        (do_convert t j).0
        j
unfolding send_args
do_convert-convert_replied s t i j g m v w p =
    agree (do_convert t j).1 s (do_convert t j).0 i j g m (convert_answer t j) v refl
      (do_convert-After t j g m p w)
