-- ===== src/Directory.antt =====
-- One resource name in the table of a node, and the directory: fs/dlm/lock.c 364-500, 502-720,
-- 852-1105, 1141-1156 and 4756-4818. A tree of the table has the name once or not at all.
pub mod Find
pub mod Remove
pub mod Keeps
pub mod KeepsFound
pub mod Kept
pub mod Handlers
pub mod Answers
pub mod Master
pub mod Split
pub mod Ends
pub mod Known
pub mod Told
pub mod Agree
pub mod Notified
use lockify.Base.{
  one_if, ℕ, zero, suc, ◌+◌, ◌-◌, Bool, true, false, not, ◌&&◌, ◌||◌, Option, none, some,
  if◌then◌else◌, ◌==◌, ltb,
}
use lockify.State.Events.{
  NodeId, node, unset, Errno, success, eagain, enomem, eexist, einval, is_success,
}
use lockify.Args.{dlm_resname_maxlen}

-- `struct dlm_rsb`, as far as the table reads it.
pub record DirRsb : Type 0 where
  pub res_nodeid : NodeId
  pub master_nodeid : ℕ
  pub dir_nodeid : ℕ
  pub first_lkid : ℕ
  pub master_uncertain : Bool
  pub new_master : Bool
  pub ref : ℕ

-- `dlm_our_nodeid`, `dlm_hash2nodeid` of the name, `ci_new_rsb_count`, `dlm_is_removed`,
-- `dlm_no_directory`, and whether the k-th call of `dlm_allocate_rsb` succeeds.
pub record DirEnv : Type 0 where
  pub our_nodeid : ℕ
  pub hash_nodeid : ℕ
  pub ci_new_rsb_count : ℕ
  pub is_removed : ℕ → Bool
  pub no_directory : Bool
  pub allocate_rsb : ℕ → Bool

-- The trees of the name's bucket, and the resources in stock.
pub record RsbTable : Type 0 where
  pub env : DirEnv
  pub keep : Option DirRsb
  pub toss : Option DirRsb
  pub ls_new_rsb : ℕ
  pub allocs : ℕ

-- `count > ci / 2` is `2 * count > ci`.
unfoldable pub pre_rsb_struct : RsbTable → RsbTable × Errno
pre_rsb_struct t =
    let r1 = one_if (t.env.allocate_rsb t.allocs) in
    let r2 = one_if (t.env.allocate_rsb (t.allocs + 1)) in
    let count = t.ls_new_rsb + r1 + r2 in
    if ltb t.env.ci_new_rsb_count (t.ls_new_rsb + t.ls_new_rsb) then (t, success) else (
      record t { ls_new_rsb = count; allocs = t.allocs + 2 },
      if count == 0 then enomem else success,
    )

unfoldable pub get_rsb_struct : RsbTable → RsbTable × Errno
get_rsb_struct t =
    if t.ls_new_rsb == 0 then (t, eagain) else (record t { ls_new_rsb = t.ls_new_rsb - 1 }, success)

-- A new resource; its memory is zeroed.
abbrev pub rsb_of : NodeId → ℕ → ℕ → DirRsb
rsb_of res_nodeid master_nodeid dir_nodeid = record {
  res_nodeid = res_nodeid;
  master_nodeid = master_nodeid;
  dir_nodeid = dir_nodeid;
  first_lkid = 0;
  master_uncertain = false;
  new_master = false;
  ref = 1;
}

-- `rsb_insert` in the toss tree and in the keep tree.
unfoldable pub insert_toss : DirRsb → RsbTable → RsbTable × Errno
insert_toss r t = elim t.toss [
  | some old ↦ (t, eexist)
  | none ↦ (record t { toss = some r }, success)
]

unfoldable pub insert_keep : DirRsb → RsbTable → RsbTable × Errno
insert_keep r t = elim t.keep [
  | some old ↦ (t, eexist)
  | none ↦ (record t { keep = some r }, success)
]

-- The answer of the directory: an error or the master; `none` if the fuel ran out.
pub record Reply : Type 0 where
  pub after : RsbTable
  pub error : Errno
  pub r_nodeid : Option NodeId  -- `none` where it is not written
  pub finished : Bool

abbrev pub reply : RsbTable → Errno → Option NodeId → Reply
reply t e n = record { after = t; error = e; r_nodeid = n; finished = true }

abbrev out_of_fuel : RsbTable → Reply
out_of_fuel t = record { after = t; error = eagain; r_nodeid = none; finished = false }

-- `not_found` of `dlm_master_lookup`: a new resource on the toss tree, `from` its master.
unfoldable pub add_toss : (RsbTable → Reply) → ℕ → RsbTable → Reply
add_toss retry from t =
    let (u, got) = get_rsb_struct t in
    let (w, error) = insert_toss (rsb_of (node from) from t.env.our_nodeid) u in
    let again = retry (if is_success got then w else u) in
    if is_success got && is_success error then reply w success (some (node from)) else again

-- `__dlm_master_lookup`; the flags are those of recovery.
pub record LookupFlags : Type 0 where
  pub recover_dir : Bool
  pub recover_master : Bool

unfoldable pub fix_removed : DirEnv → ℕ → Bool → DirRsb → DirRsb
fix_removed e from fix_master r =
    if fix_master && e.is_removed r.master_nodeid
    then record r { master_nodeid = from; res_nodeid = node from; new_master = true }
    else r

-- The part for a sender that says that it is the master.
unfoldable pub fix_from_master : DirEnv → ℕ → Bool → DirRsb → DirRsb
fix_from_master e from from_master r =
    if from_master && not (r.master_nodeid == from)
    then (if r.master_nodeid == e.our_nodeid
        then r
        else record r { master_nodeid = from; res_nodeid = node from; new_master = true })
    else r

unfoldable pub fix_unknown : ℕ → DirRsb → DirRsb
fix_unknown from r =
    if r.master_nodeid == 0 then record r { master_nodeid = from; res_nodeid = node from } else r

-- `ret_assign` skips the last part for a resource of this node, whose master is known.
unfoldable pub looked_up : DirEnv → ℕ → LookupFlags → DirRsb → DirRsb
looked_up e from f r =
    let r1 = record r { dir_nodeid = e.our_nodeid } in
    let r2 = fix_removed e from f.recover_master r1 in
    let r3 = fix_from_master e from f.recover_dir r2 in
    if f.recover_dir && not (r2.master_nodeid == from) && r2.master_nodeid == e.our_nodeid
    then r3
    else fix_unknown from r3

-- From `retry` on.
unfoldable pub lookup_loop : ℕ → ℕ → LookupFlags → RsbTable → Reply
lookup_loop zero from f t = out_of_fuel t
lookup_loop (suc fuel) from f s =
    let (t, error) = pre_rsb_struct s in
    let added = add_toss (lookup_loop fuel from f) from t in
    if not (is_success error) then reply t error none else elim t.keep [
      | some r ↦
          let r' = looked_up t.env from f r in
          reply (record t { keep = some r' }) success (some (node r'.master_nodeid))
      | none ↦ elim t.toss [
        | some r ↦
            let r' = looked_up t.env from f r in
            reply (record t { toss = some r' }) success (some (node r'.master_nodeid))
        | none ↦ added
      ]
    ]

-- The checks before `retry`, with the rest in `loop`.
abbrev pub if_directory : RsbTable → ℕ → ℕ → Reply → Reply
if_directory t from len loop =
    if ltb dlm_resname_maxlen len || from == t.env.our_nodeid
    then reply t einval none
    else if not (t.env.hash_nodeid == t.env.our_nodeid)
    then reply t einval (some unset)
    else loop

unfoldable pub dlm_master_lookup : ℕ → RsbTable → ℕ → ℕ → LookupFlags → Reply
dlm_master_lookup fuel t from len f = if_directory t from len (lookup_loop fuel from f t)

-- The same steps stand in `dlm_master_notify` once more, where neither tree is searched for the name.
unfoldable pub notify_toss : (RsbTable → Reply) → ℕ → RsbTable → Reply
notify_toss retry from t =
    let (u, got) = get_rsb_struct t in
    let (w, error) = insert_toss (rsb_of (node from) from t.env.our_nodeid) u in
    let again = retry (if is_success got then w else u) in
    if is_success got && is_success error then reply w success (some (node from)) else again

unfoldable pub notify_loop : ℕ → ℕ → RsbTable → Reply
notify_loop zero from t = out_of_fuel t
notify_loop (suc fuel) from s =
    let (t, error) = pre_rsb_struct s in
    let added = notify_toss (notify_loop fuel from) from t in
    if not (is_success error) then reply t error none else added

unfoldable pub dlm_master_notify : ℕ → RsbTable → ℕ → ℕ → Reply
dlm_master_notify fuel t from len = if_directory t from len (notify_loop fuel from t)
