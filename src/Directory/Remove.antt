-- ===== src/Directory/Remove.antt =====
-- How a name leaves the tables: fs/dlm/lock.c 1608-1740 and 4272-4358. The time and the other names of
-- the bucket are arguments.
use lockify.Base.{ℕ, ◌-◌, Bool, true, false, not, ◌&&◌, ◌||◌, none, some, if◌then◌else◌, ◌==◌, ltb}
use lockify.Args.{dlm_resname_maxlen}
use lockify.Directory.{DirRsb, RsbTable}

-- This node has the directory's record of a resource that another node masters.
abbrev pub is_record : RsbTable → DirRsb → Bool
is_record t r =
    not t.env.no_directory
    && not (r.master_nodeid == t.env.our_nodeid)
    && r.dir_nodeid == t.env.our_nodeid

-- This node masters the resource, and another is its directory.
abbrev pub is_mastered : RsbTable → DirRsb → Bool
is_mastered t r =
    not t.env.no_directory
    && r.master_nodeid == t.env.our_nodeid
    && not (r.dir_nodeid == t.env.our_nodeid)

-- `kref_put` of a resource on the toss tree, and `rb_erase` with the last reference.
unfoldable pub put_toss : RsbTable → DirRsb → RsbTable × Bool
put_toss t r =
    if r.ref == 1
    then (record t { toss = none }, true)
    else (record t { toss = some (record r { ref = r.ref - 1 }) }, false)

-- The first loop of `shrink_bucket` at this name: whether it goes on the list of names to remove.
unfoldable pub scan_toss : RsbTable → Bool → RsbTable × Bool
scan_toss t expired = elim t.toss [
  | none ↦ (t, false)
  | some r ↦
      if is_record t r || not expired
      then (t, false)
      else if is_mastered t r
      then (t, true)
      else ((put_toss t r).0, false)
]

-- The second loop, at this name: whether DLM_MSG_REMOVE is sent.
unfoldable pub remove_toss : RsbTable → Bool → RsbTable × Bool
remove_toss t expired = elim t.toss [
  | none ↦ (t, false)
  | some r ↦
      if not (r.master_nodeid == t.env.our_nodeid)
        || r.dir_nodeid == t.env.our_nodeid
        || not expired
      then (t, false)
      else put_toss t r
]

-- Every branch with the name on the keep tree, or nowhere, changes nothing.
unfoldable pub receive_remove : RsbTable → ℕ → ℕ → RsbTable
receive_remove t from len = elim t.toss [
  | none ↦ t
  | some r ↦
      if ltb dlm_resname_maxlen len || not (t.env.hash_nodeid == t.env.our_nodeid)
      then t
      else if not (r.master_nodeid == from)
      then t
      else (put_toss t r).0
]
