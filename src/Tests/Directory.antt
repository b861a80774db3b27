-- ===== src/Tests/Directory.antt =====
-- Tests of the table of resources on the directory node, node 1.
use lockify.Base.{◌≡◌, refl, true, false, none, some, List, [], ◌∷◌}
use lockify.Modes.{iv, nl, pr}
use lockify.State.{State}
use lockify.State.Flags.{no_flags}
use lockify.State.Events.{node, unset, success, is_success, MsgType, Message, no_sbflags, LkSts}
use lockify.Receive.Master.{Lookup}
use lockify.Directory.Known.{master_of}
use lockify.Directory.Handlers.{no_recovery, receive_lookup}
use lockify.Directory.Answers.{IsAnswered, receive_lookup-IsAnswered}
use lockify.Tests.{start}
use lockify.Directory.{
  DirEnv, RsbTable, LookupFlags, rsb_of, dlm_master_lookup, dlm_master_notify, pre_rsb_struct,
  get_rsb_struct, insert_toss, insert_keep, add_toss, notify_loop, notify_toss, lookup_loop,
  looked_up, fix_unknown, fix_from_master, fix_removed,
}
use lockify.Directory.Master.{dlm_master_notify-retries}
use lockify.Directory.Notified.{dlm_master_lookup-dlm_master_notify}
use lockify.Directory.Ends.{dlm_master_lookup-finished}
use lockify.Directory.Told.{dlm_master_lookup-agrees}
use lockify.Directory.Split.{Disagrees, dlm_master_notify-Disagrees}
use lockify.Directory.Find.{FindFlags, find_rsb, find_loop, from_toss, mend, drop_rsb}
use lockify.Directory.Remove.{scan_toss, receive_remove}
use lockify.Directory.Kept.{Op, apply, apply_all, all_allowed, apply_all-dlm_master_lookup}
use lockify.Directory.Find.Apart.{IsUsable, find_rsb-IsUsable}

abbrev dir_env : DirEnv
dir_env = record {
  our_nodeid = 1;
  hash_nodeid = 1;
  ci_new_rsb_count = 8;
  is_removed = λ n. false;
  no_directory = false;
  allocate_rsb = λ k. true;
}

abbrev empty : RsbTable
empty = record { env = dir_env; keep = none; toss = none; ls_new_rsb = 0; allocs = 0 }

-- Node 2 is the master.
abbrev tossed : RsbTable
tossed = record empty { toss = some (rsb_of (node 2) 2 1) }

-- This node uses the resource, and is its master.
abbrev used : RsbTable
used = record empty { keep = some (rsb_of (node 0) 1 1) }

abbrev normal : LookupFlags
normal = record { recover_dir = false; recover_master = false }

abbrev local : FindFlags
local = record { request = true; receive_request = false; notify = true; recover = false }

dlm_master_lookup-finished_example : (dlm_master_lookup 1 empty 3 5 normal).finished ≡ true
dlm_master_lookup-finished_example = dlm_master_lookup-finished 0 empty 3 5 normal

first-success : is_success (dlm_master_lookup 1 empty 3 5 normal).error ≡ true
unfolding dlm_master_lookup lookup_loop pre_rsb_struct get_rsb_struct insert_toss add_toss
first-success = refl

second-success :
    is_success (dlm_master_lookup 1 (dlm_master_lookup 1 empty 3 5 normal).after 4 5 normal).error
    ≡ true
unfolding dlm_master_lookup lookup_loop pre_rsb_struct get_rsb_struct insert_toss add_toss
second-success = refl

dlm_master_lookup-agrees_example :
    (dlm_master_lookup 1 (dlm_master_lookup 1 empty 3 5 normal).after 4 5 normal).r_nodeid
    ≡ (dlm_master_lookup 1 empty 3 5 normal).r_nodeid
dlm_master_lookup-agrees_example =
    dlm_master_lookup-agrees 1 1 empty 3 4 5 5 normal normal refl refl refl first-success
      second-success

notify-success : is_success (dlm_master_notify 1 empty 3 5).error ≡ true
unfolding dlm_master_notify notify_loop notify_toss pre_rsb_struct get_rsb_struct insert_toss
notify-success = refl

after_notify-success :
    is_success (dlm_master_lookup 1 (dlm_master_notify 1 empty 3 5).after 4 5 normal).error ≡ true
unfolding dlm_master_notify notify_loop notify_toss dlm_master_lookup lookup_loop pre_rsb_struct
    get_rsb_struct insert_toss looked_up fix_unknown fix_from_master fix_removed
after_notify-success = refl

dlm_master_lookup-dlm_master_notify_example :
    ((dlm_master_notify 1 empty 3 5).r_nodeid ≡ some (node 3))
    × ((dlm_master_lookup 1 (dlm_master_notify 1 empty 3 5).after 4 5 normal).r_nodeid
        ≡ some (node 3))
dlm_master_lookup-dlm_master_notify_example =
    dlm_master_lookup-dlm_master_notify 1 1 empty 3 4 5 5 normal refl refl refl refl notify-success
      after_notify-success

dlm_master_notify-retries_example : (dlm_master_notify 100 tossed 2 5).finished ≡ false
dlm_master_notify-retries_example =
    dlm_master_notify-retries 100 tossed 2 5 (rsb_of (node 2) 2 1) refl refl refl (λ k. refl) refl

dlm_master_notify-Disagrees_example : Disagrees (dlm_master_notify 1 used 2 5) 2 (node 1)
dlm_master_notify-Disagrees_example =
    dlm_master_notify-Disagrees 0 used 2 5 (rsb_of (node 0) 1 1) refl refl refl (λ k. refl) refl
      refl

find_rsb-IsUsable_example : IsUsable (find_rsb 1 tossed 0 5 local)
find_rsb-IsUsable_example = find_rsb-IsUsable 0 tossed 0 5 local refl

-- This node uses the name of node 2, node 3 looks it up and asks for its removal, and it is not used.
abbrev history : List Op
history = Op.find 1 0 5 local ∷ Op.lookup 1 3 5 normal ∷ Op.put ∷ Op.scan true ∷ Op.removed 3 5 ∷ []

history-success :
    is_success (dlm_master_lookup 1 (apply_all history tossed) 4 5 normal).error ≡ true
unfolding apply_all apply find_rsb find_loop from_toss mend insert_keep drop_rsb dlm_master_lookup
    lookup_loop pre_rsb_struct scan_toss receive_remove insert_toss looked_up fix_unknown
    fix_from_master fix_removed
history-success = refl

apply_all-dlm_master_lookup_example :
    (dlm_master_lookup 1 (apply_all history tossed) 4 5 normal).r_nodeid ≡ some (node 2)
unfolding all_allowed apply find_rsb find_loop from_toss mend insert_keep drop_rsb dlm_master_lookup
    lookup_loop pre_rsb_struct scan_toss receive_remove insert_toss looked_up fix_unknown
    fix_from_master fix_removed
apply_all-dlm_master_lookup_example =
    apply_all-dlm_master_lookup 2 history tossed 1 4 5 normal refl refl refl history-success

-- Node 2 looks the name up, about its lock 5.
abbrev looks_up : Message
looks_up = record {
  m_from = 2;
  m_type = MsgType.lookup_msg;
  m_to = node 1;
  m_nodeid = node 1;
  m_lkid = 5;
  m_remid = 0;
  m_exflags = no_flags;
  m_sbflags = no_sbflags;
  m_user = false;
  m_lvbseq = 0;
  m_status = LkSts.off;
  m_grmode = iv;
  m_rqmode = pr;
  m_ast = true;
  m_bast = true;
  m_bastmode = nl;
  m_result = success;
  m_extra = 97 ∷ 98 ∷ [];
}

abbrev node_1 : State
node_1 = start

abbrev served : Lookup
served = record { create_error = success; id = 7; find_error = success; no_directory = false }

lookup-success : is_success (dlm_master_lookup 1 empty 2 2 no_recovery).error ≡ true
unfolding dlm_master_lookup lookup_loop pre_rsb_struct get_rsb_struct insert_toss add_toss
lookup-success = refl

receive_lookup-IsAnswered_example :
    IsAnswered node_1 looks_up served
      (master_of (receive_lookup 1 node_1 empty looks_up served unset).1)
      (receive_lookup 1 node_1 empty looks_up served unset).0
receive_lookup-IsAnswered_example =
    receive_lookup-IsAnswered 1 node_1 empty looks_up served unset refl refl lookup-success
