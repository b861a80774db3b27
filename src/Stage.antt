-- ===== src/Stage.antt =====
-- Local or remote, stage 3, and the master of a resource: fs/dlm/lock.c 2518-2622, 3074-3150.
use lockify.Base.{
  ℕ, Bool, true, false, not, ◌&&◌, List, [], ◌∷◌, ◌++◌, if◌then◌else◌, ◌==◌, list_del,
}
use lockify.State.Events.{
  NodeId, node, is_unset, Errno, success, einprogress, eagain, ebadr, enotblk,
}
use lockify.State.{State, modify, put_rsb, is_remote, assert_known_master}
use lockify.State.Set.{set_nodeid}
use lockify.Pending.{walk}
use lockify.Op.{
  do_request, do_request_effects, do_convert, do_convert_effects, do_unlock, do_unlock_effects,
  do_cancel, do_cancel_effects,
}
use lockify.Send.{send_request, send_convert, send_unlock, send_cancel, send_lookup, send_notify}

abbrev set_lkb_nodeid : State → ℕ → NodeId → State
set_lkb_nodeid s i n = modify s i (set_nodeid n)

-- `set_master` where neither flag nor another lock's lookup decides.
unfoldable pub choose_master : State → ℕ → State × Bool
choose_master s i =
    let r = s.rsb in
    let our = s.env.our_nodeid in
    if r.master_nodeid == our && is_unset r.res_nodeid
    then (
      (send_notify (set_lkb_nodeid (put_rsb s (record r { res_nodeid = node 0 })) i (node 0)) i).0,
      false,
    )
    else if r.master_nodeid == our
    then (set_lkb_nodeid s i (node 0), false)
    else if not (r.master_nodeid == 0)
    then (set_lkb_nodeid s i (node r.master_nodeid), false)
    else if s.env.dir_nodeid == our
    then (
      set_lkb_nodeid (put_rsb s (record r { master_nodeid = our; res_nodeid = node 0 })) i (node 0),
      false,
    )
    else ((send_lookup (put_rsb s (record r { first_lkid = i })) i).0, true)

-- `true` if the lock has to wait for the master to be known.
unfoldable pub set_master : State → ℕ → State × Bool
set_master s i =
    let r = s.rsb in
    if r.master_uncertain
    then (
      set_lkb_nodeid (put_rsb s (record r { master_uncertain = false; first_lkid = i })) i
          r.res_nodeid,
      false,
    )
    else if not (r.first_lkid == 0) && not (r.first_lkid == i)
    then (put_rsb s (record r { lookup = r.lookup ++ i ∷ [] }), true)
    else choose_master s i

-- Stage 3: `remote` sends to the master, `op` and `effects` are the work of the master.
abbrev pub by_master :
    (State → ℕ → State × Errno)
    → (State → ℕ → State × Errno)
    → (State → ℕ → Errno → State)
    → State
    → ℕ
    → State × Errno
by_master remote op effects s i =
    let t = assert_known_master s in
    let (u, error) = op t i in if is_remote s then remote t i else (effects u i error, error)

unfoldable pub rsb_request_lock : State → ℕ → State × Errno
rsb_request_lock s i =
    let (t, waits) = set_master s i in
    if waits then (t, success) else by_master send_request do_request do_request_effects t i

unfoldable pub rsb_convert_lock : State → ℕ → State × Errno
rsb_convert_lock s i = by_master send_convert do_convert do_convert_effects s i

unfoldable pub rsb_unlock_lock : State → ℕ → State × Errno
rsb_unlock_lock s i = by_master send_unlock do_unlock do_unlock_effects s i

unfoldable pub rsb_cancel_lock : State → ℕ → State × Errno
rsb_cancel_lock s i = by_master send_cancel do_cancel do_cancel_effects s i

-- `list_del_init(&lkb->lkb_rsb_lookup)`
abbrev leave_lookup : State → ℕ → State
leave_lookup s i = put_rsb s (record s.rsb { lookup = list_del i s.rsb.lookup })

unfoldable pub lookup_one : State → ℕ → State
lookup_one s i = (rsb_request_lock (leave_lookup s i) i).0

-- By the entries at the start: the master is known where this is called, so `set_master` puts no
-- lock back on the list.
unfoldable pub process_lookup_list : State → State
process_lookup_list s = walk lookup_one s s.rsb.lookup

-- A waiting lock takes over the lookup.
abbrev next_first : State → List ℕ → State
next_first s [] = s
next_first s (i ∷ rest) =
    (rsb_request_lock
      (put_rsb (leave_lookup s i) (record (leave_lookup s i).rsb { first_lkid = i })) i).0

abbrev no_first : State → State
no_first s = put_rsb s (record s.rsb { first_lkid = 0 })

abbrev confirmed : State → Errno → State
confirmed s success = process_lookup_list (no_first s)
confirmed s einprogress = process_lookup_list (no_first s)
confirmed s eagain = next_first (no_first s) s.rsb.lookup
confirmed s ebadr = next_first (no_first s) s.rsb.lookup
confirmed s enotblk = next_first (no_first s) s.rsb.lookup
confirmed s error = s

unfoldable pub confirm_master : State → Errno → State
confirm_master s error = if s.rsb.first_lkid == 0 then s else confirmed s error
