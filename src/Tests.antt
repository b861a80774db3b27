-- ===== src/Tests.antt =====
-- A resource for the tests: node 1 is its master, and its locks 1 to 9 are new.
mod Modes
mod Queues
mod Grants
mod Placed
pub mod Safety
mod Receive
mod Glock
mod Waiting
mod Directory
use lockify.Base.{ℕ, true, false, [], none, some, ◌∷◌}
use lockify.Modes.{Mode, iv, nl}
use lockify.State.{State, Lkb, Rsb, Env}
use lockify.State.Flags.{LkFlags, no_flags}
use lockify.State.Events.{node, no_sbflags, LkSts}
use lockify.Args.{Lksb, LockArgs}

abbrev pub new_lkb : Lkb
new_lkb = record {
  ref = 1;
  nodeid = node 0;
  remid = 0;
  exflags = no_flags;
  sbflags = no_sbflags;
  user = false;
  mstcpy = false;
  resend = false;
  overlap_unlock = false;
  overlap_cancel = false;
  endoflife = false;
  deadlock_cancel = false;
  lvbseq = 0;
  status = LkSts.off;
  rqmode = iv;
  grmode = iv;
  highbast = nl;
  wait_type = none;
  wait_count = 0;
  wait_nodeid = node 0;
  lvbptr = some (7 ∷ 8 ∷ []);
  lksb = true;
  astfn = true;
  bastfn = true;
  astparam = 0;
  parent_lkid = 0;
  total_children = 0;
  child_waiters = [];
}

abbrev pub idle_rsb : Rsb
idle_rsb = record {
  res_name = 65 ∷ [];
  res_nodeid = node 0;
  master_nodeid = 1;
  res_lvbseq = 0;
  first_lkid = 0;
  lookup = [];
  grantqueue = [];
  convertqueue = [];
  waitqueue = [];
  res_lvbptr = some (0 ∷ 0 ∷ []);
  master_uncertain = false;
  valnotvalid = false;
  recover_grant = false;
}

abbrev pub env : Env
env = record {
  our_nodeid = 1;
  dir_nodeid = 2;
  lvblen = 2;
  get_mhandle = λ k. true;
  allocate_lvb = λ k. true;
}

abbrev pub start : State
start = record {
  env = env;
  lkbs = λ i. new_lkb;
  present = λ i. true;
  rsb = idle_rsb;
  waiters = [];
  callbacks = [];
  sent = [];
  mhandles = 0;
  lvb_allocs = 0;
  bug = false;
}

abbrev pub asking : Mode → Lkb
asking m = record new_lkb { rqmode = m }

abbrev pub holding : Mode → Lkb
holding m = record new_lkb { grmode = m; status = LkSts.granted; ref = 2 }

abbrev pub converting : Mode → Mode → Lkb
converting gr rq = record new_lkb { grmode = gr; rqmode = rq; status = LkSts.convert; ref = 2 }

abbrev pub args : Mode → LkFlags → LockArgs
args m f = record {
  flags = f;
  astparam = 0;
  bast = true;
  mode = m;
  lksb = record { sb_lkid = 1; sb_lvbptr = none };
}
