-- ===== src/Directory/Find.antt =====
-- `find_rsb` with a directory, and the way back to the toss tree: fs/dlm/lock.c 337-358, 502-720,
-- 1141-1156.
pub mod Apart
use lockify.Base.{
  ℕ, zero, suc, ◌+◌, ◌-◌, Bool, true, false, not, ◌&&◌, ◌||◌, Option, none, some, if◌then◌else◌,
  ◌==◌, ltb,
}
use lockify.State.Events.{
  NodeId, node, unset, Errno, success, eagain, ebadr, enotblk, einval, is_success,
}
use lockify.Args.{dlm_resname_maxlen}
use lockify.Directory.{
  DirRsb, DirEnv, RsbTable, rsb_of, pre_rsb_struct, get_rsb_struct, insert_keep, insert_toss,
}

-- The `flags` of `find_rsb`.
pub record FindFlags : Type 0 where
  pub request : Bool
  pub receive_request : Bool
  pub notify : Bool
  pub recover : Bool

abbrev pub from_dir : RsbTable → ℕ → FindFlags → Bool
from_dir t from f = f.receive_request && from == t.env.hash_nodeid

abbrev pub from_other : RsbTable → ℕ → FindFlags → Bool
from_other t from f = f.receive_request && not (from == t.env.hash_nodeid)

abbrev pub from_local : FindFlags → Bool
from_local f = not f.receive_request && f.request

abbrev pub create : RsbTable → ℕ → FindFlags → Bool
create t from f =
    from_local f
    || from_dir t from f
    || (from_other t from f && t.env.hash_nodeid == t.env.our_nodeid)

pub record Found : Type 0 where
  pub after : RsbTable
  pub error : Errno
  pub finished : Bool

abbrev pub found : RsbTable → Errno → Found
found t e = record { after = t; error = e; finished = true }

unfoldable pub take_ref : DirRsb → DirRsb
take_ref r = record r { ref = r.ref + 1 }

-- What is mended of a resource on the toss tree before it is used.
unfoldable pub mend : RsbTable → ℕ → FindFlags → DirRsb → DirRsb
mend t from f r =
    let mine = r.master_nodeid == t.env.our_nodeid in
    if not mine && from_dir t from f
    then record r {
      master_nodeid = t.env.our_nodeid;
      res_nodeid = node 0;
      master_uncertain = false;
      first_lkid = 0;
    }
    else if from_local f && not mine
    then record r { master_uncertain = true; first_lkid = 0 }
    else r

-- `do_toss`: from the toss tree to the keep tree.
unfoldable pub from_toss : RsbTable → ℕ → FindFlags → DirRsb → Found
from_toss t from f r =
    let (u, error) = insert_keep (mend t from f r) (record t { toss = none }) in
    if not (r.master_nodeid == t.env.our_nodeid) && from_other t from f
    then found t enotblk
    else found u error

-- The master of a new resource: this node where it is the directory or is asked by it; unknown
-- otherwise, or this node on its own word with R_NOTIFY.
unfoldable pub new_rsb : RsbTable → ℕ → FindFlags → DirRsb
new_rsb t from f =
    let our = t.env.our_nodeid in
    let dir = t.env.hash_nodeid in
    if from_dir t from f || dir == our
    then rsb_of (node 0) our dir
    else if f.notify
    then rsb_of unset our dir
    else rsb_of unset 0 dir

-- `do_new`, with the retry loop.
unfoldable pub make_new : (RsbTable → Found) → RsbTable → ℕ → FindFlags → Found
make_new retry t from f =
    let (u, got) = get_rsb_struct t in
    let (w, error) = insert_keep (new_rsb t from f) u in
    let again = retry u in
    if not (create t from f)
    then found t ebadr
    else if not (is_success got)
    then again
    else if from_other t from f && not (t.env.hash_nodeid == t.env.our_nodeid)
    then found u enotblk
    else found w error

unfoldable pub find_loop : ℕ → ℕ → FindFlags → RsbTable → Found
find_loop zero from f s = record { after = s; error = eagain; finished = false }
find_loop (suc fuel) from f s =
    let (t, error) = if create s from f then pre_rsb_struct s else (s, success) in
    let new = make_new (find_loop fuel from f) t from f in
    if not (is_success error) then found t error else elim t.keep [
      | some r ↦ found (record t { keep = some (take_ref r) }) success
      | none ↦ elim t.toss [ some r ↦ from_toss t from f r | none ↦ new ]
    ]

-- `find_rsb_nodir`: the master is the node of the hash.
unfoldable pub mend_nodir : RsbTable → FindFlags → DirRsb → DirRsb
mend_nodir t f r =
    if not f.recover
      && not (r.master_nodeid == t.env.our_nodeid)
      && t.env.hash_nodeid == t.env.our_nodeid
    then record r { master_nodeid = t.env.our_nodeid; res_nodeid = node 0 }
    else r

unfoldable pub nodir_toss : RsbTable → ℕ → FindFlags → DirRsb → Found
nodir_toss t from f r =
    let (u, error) = insert_keep (mend_nodir t f r) (record t { toss = none }) in
    if not f.recover && not (r.master_nodeid == t.env.our_nodeid) && not (from == 0)
    then found t enotblk
    else found u error

abbrev pub nodir_rsb : DirEnv → DirRsb
nodir_rsb e =
    rsb_of (if e.hash_nodeid == e.our_nodeid then node 0 else node e.hash_nodeid) e.hash_nodeid
      e.hash_nodeid

unfoldable pub nodir_new : (RsbTable → Found) → RsbTable → Found
nodir_new retry t =
    let (u, got) = get_rsb_struct t in
    let (w, error) = insert_keep (nodir_rsb t.env) u in
    let again = retry u in if not (is_success got) then again else found w error

unfoldable pub find_rsb_nodir : ℕ → ℕ → FindFlags → RsbTable → Found
find_rsb_nodir zero from f s = record { after = s; error = eagain; finished = false }
find_rsb_nodir (suc fuel) from f s =
    let (t, error) = pre_rsb_struct s in
    let new = nodir_new (find_rsb_nodir fuel from f) t in
    if not (is_success error) then found t error else elim t.keep [
      | some r ↦ found (record t { keep = some (take_ref r) }) success
      | none ↦ elim t.toss [ some r ↦ nodir_toss t from f r | none ↦ new ]
    ]

unfoldable pub find_rsb : ℕ → RsbTable → ℕ → ℕ → FindFlags → Found
find_rsb fuel t from len f =
    if ltb dlm_resname_maxlen len
    then found t einval
    else if t.env.no_directory
    then find_rsb_nodir fuel from f t
    else find_loop fuel from f t

-- `put_rsb`, and `toss_rsb` with the last reference, which takes no notice of what `rsb_insert`
-- returns.
unfoldable pub drop_rsb : RsbTable → RsbTable
drop_rsb t = elim t.keep [
  | none ↦ t
  | some r ↦
      if r.ref == 1
      then (insert_toss (record r { ref = 1 }) (record t { keep = none })).0
      else record t { keep = some (record r { ref = r.ref - 1 }) }
]
