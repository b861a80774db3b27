-- ===== src/Tests/Receive.antt =====
-- Tests of the handlers of messages.
use lockify.Base.{refl, true, false, some, [], ◌∷◌, List, arith, update}
use lockify.Modes.{Mode, iv, nl, cr, pr, ex, modes_compat}
use lockify.State.Flags.{no_flags}
use lockify.State.{State, modify}
use lockify.State.Set.{set_rqmode}
use lockify.State.Events.{
  node, MsgType, request, convert_msg, grant, Message, success, no_sbflags, LkSts,
}
use lockify.Args.{natural}
use lockify.Queue.{queue_conflict}
use lockify.Grant.{grantable, conversion_deadlock_detect, deadlock_in}
use lockify.Op.{do_convert}
use lockify.Send.{convert_replied}
use lockify.Lvb.{set_lvb_lock_pc}
use lockify.Api.Safety.{locks}
use lockify.Api.Calls.{IsSafe}
use lockify.Receive.{receive_lvb}
use lockify.Receive.Master.{Lookup}
use lockify.Receive.Dispatch.{receive_message}
use lockify.Receive.Safety.{Event, run_all, run_all-IsSafe}
use lockify.Receive.Strangers.{IsStranger, IsUntouched, receive_message-IsUntouched}
use lockify.Receive.Blocks.{Fits, received-Fits}
use lockify.Receive.Copies.{Shows, Asks, IsPlain}
use lockify.Receive.Copies.Agree.{SameCopies, convert_answer, do_convert-convert_replied}
use lockify.Receive.Copies.Alternate.{IsAlternated, do_convert-alternate}
use lockify.Tests.{start, idle_rsb, holding, args}
use lockify.Tests.Safety.{start-IsSafe}

-- From node 2, about its lock 5, which is lock 7 here.
abbrev message : MsgType → Mode → Message
message t m = record {
  m_from = 2;
  m_type = t;
  m_to = node 1;
  m_nodeid = node 1;
  m_lkid = 5;
  m_remid = 7;
  m_exflags = no_flags;
  m_sbflags = no_sbflags;
  m_user = false;
  m_lvbseq = 0;
  m_status = LkSts.off;
  m_grmode = iv;
  m_rqmode = m;
  m_ast = true;
  m_bast = true;
  m_bastmode = nl;
  m_result = success;
  m_extra = 65 ∷ 66 ∷ 67 ∷ [];
}

abbrev served : Lookup
served = record { create_error = success; id = 7; find_error = success; no_directory = false }

-- Lock 1 is granted PR here, node 2 asks for CR and then wants EX.
abbrev events : List Event
events =
    Event.call 1 (locks (natural 3) (some (args pr no_flags).lksb) no_flags 5 true 0 true 0)
    ∷ Event.message (message request cr) served true
    ∷ Event.message (message convert_msg ex) served true
    ∷ []

run_all-IsSafe_example : IsSafe (run_all start events)
run_all-IsSafe_example = run_all-IsSafe start events refl start-IsSafe

-- Lock 7 is a process copy, of which node 3 is the master.
abbrev owning : State
owning = record start {
  lkbs = update start.lkbs 7 (record (holding pr) { nodeid = node 3; remid = 5 });
}

owning-IsStranger : IsStranger owning (message grant pr)
owning-IsStranger = record {
  present = refl;
  remid = refl;
  held = omega arith;
  other = refl;
  known = refl;
}

receive_message-IsUntouched_example :
    IsUntouched owning (receive_message owning (message grant pr) served true)
receive_message-IsUntouched_example =
    receive_message-IsUntouched owning (message grant pr) served true refl owning-IsStranger

-- The message has three bytes, the block has two.
received-Fits_example :
    Fits (receive_lvb owning 7 (message convert_msg pr)).0 7
    × Fits (set_lvb_lock_pc owning 7 (message convert_msg pr)) 7
received-Fits_example = received-Fits owning 7 (message convert_msg pr) (λ b e. ground (arith, e))

-- On its owner's node, lock 1 holds CR and asks for EX.
abbrev owner : State
owner = record start {
  lkbs = update start.lkbs 1 (record (holding cr) { rqmode = ex; nodeid = node 2; remid = 7 });
  rsb = record idle_rsb { res_nodeid = node 2; grantqueue = 1 ∷ [] };
}

-- The master's copy is lock 7, beside lock 3, which holds PR.
abbrev master : State
master = record start {
  lkbs =
      update (update start.lkbs 3 (holding pr)) 7
        (record (holding cr) { rqmode = ex; nodeid = node 2; remid = 1; mstcpy = true });
  rsb = record idle_rsb { grantqueue = 3 ∷ 7 ∷ [] };
}

owner-Asks : Asks owner 1 cr ex
owner-Asks = record { holds = refl; asks = refl; granted = refl }

master-Asks : Asks master 7 cr ex
master-Asks = record { holds = refl; asks = refl; granted = refl }

master-IsPlain : IsPlain (master.lkbs 7)
master-IsPlain = record { convdeadlk = refl; altpr = refl; altcw = refl; demoted = refl }

do_convert-convert_replied_example :
    SameCopies
      (convert_replied owner 1 (convert_answer master 7) false (do_convert master 7).1)
      1
      (do_convert master 7).0
      7
do_convert-convert_replied_example =
    do_convert-convert_replied owner master 1 7 cr ex owner-Asks master-Asks master-IsPlain

-- The same with ALTPR.
abbrev altpr_master : State
altpr_master = modify master 7 (λ l. record l { exflags = record no_flags { altpr = true } })

altpr_master-Asks : Asks altpr_master 7 cr ex
altpr_master-Asks = record { holds = refl; asks = refl; granted = refl }

altpr_master-IsAlternated : IsAlternated altpr_master 7
unfolding grantable queue_conflict modes_compat conversion_deadlock_detect deadlock_in set_rqmode
altpr_master-IsAlternated = record {
  blocked = refl;
  no_deadlock = refl;
  altpr = refl;
  not_pr = refl;
  fits = refl;
}

do_convert-alternate_example :
    Shows (do_convert altpr_master 7).0 7 pr LkSts.granted
    × Shows
        (convert_replied owner 1
          (convert_answer altpr_master 7)
          false
          (do_convert altpr_master 7).1)
        1
        ex
        LkSts.granted
do_convert-alternate_example =
    do_convert-alternate owner altpr_master 1 7 cr ex owner-Asks altpr_master-Asks
      altpr_master-IsAlternated
