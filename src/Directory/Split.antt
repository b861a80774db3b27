-- ===== src/Directory/Split.antt =====
-- A notification for a name that the directory node itself uses: fs/dlm/lock.c 4756-4818.
use lockify.Base.{ℕ, suc, ◌≡◌, refl, ap, ◌∙◌, true, false, Option, none, some, ◌==◌, ltb}
use lockify.State.Events.{NodeId, node, is_success}
use lockify.Args.{dlm_resname_maxlen}
use lockify.Directory.{
  DirRsb, RsbTable, Reply, pre_rsb_struct, get_rsb_struct, rsb_of, notify_toss, notify_loop,
  dlm_master_notify,
}
use lockify.Directory.Master.{
  SameTrees, pre_rsb_struct-SameTrees, get_rsb_struct-SameTrees, pre_rsb_struct-success,
  if_directory-cases,
}
use lockify.Directory.Agree.{insert_toss-absent}
use lockify.Directory.Ends.{stocked}
use lockify.Directory.Known.{master_of, in_trees}

-- The notifying node is told that it is the master, and the table keeps another.
abbrev pub Disagrees : Reply → ℕ → NodeId → Type 0
Disagrees r from master =
    (is_success r.error ≡ true)
    × (r.r_nodeid ≡ some (node from))
    × (master_of r.after ≡ some master)

notify_toss-Disagrees :
    (retry : RsbTable → Reply) (from : ℕ) (t : RsbTable) (r : DirRsb)
    → is_success (get_rsb_struct t).1 ≡ true
    → t.keep ≡ some r
    → t.toss ≡ none
    → Disagrees (notify_toss retry from t) from (node r.master_nodeid)
unfolding notify_toss
notify_toss-Disagrees retry from t r got k e =
    rw
      (
        insert_toss-absent (rsb_of (node from) from t.env.our_nodeid) (get_rsb_struct t).0
            (q.toss ∙ e),
        got,
      )
      (
        refl,
        refl,
        ap
            (λ (o : Option DirRsb).
              in_trees (λ (r : DirRsb). some (node r.master_nodeid)) none o
                (some (rsb_of (node from) from t.env.our_nodeid)))
            (q.keep ∙ k),
      )
  where
    q : SameTrees t (get_rsb_struct t).0
    q = get_rsb_struct-SameTrees t

notify_loop-Disagrees :
    (fuel from : ℕ) (t : RsbTable) (r : DirRsb)
    → ((k : ℕ) → t.env.allocate_rsb k ≡ true)
    → t.keep ≡ some r
    → t.toss ≡ none
    → Disagrees (notify_loop (suc fuel) from t) from (node r.master_nodeid)
unfolding notify_loop
notify_loop-Disagrees fuel from t r a k e = rw ok (
    notify_toss-Disagrees (notify_loop fuel from) from (pre_rsb_struct t).0 r (stocked t ok)
      (q.keep ∙ k) (q.toss ∙ e))
  where
    ok : is_success (pre_rsb_struct t).1 ≡ true
    ok = ap is_success (pre_rsb_struct-success t a)

    q : SameTrees t (pre_rsb_struct t).0
    q = pre_rsb_struct-SameTrees t

-- On the directory node, with a good name from another node, with memory, and with the name in
-- the keep tree only, a notification succeeds and confirms the notifying node as the master,
-- and the table keeps the master that it had.
pub dlm_master_notify-Disagrees :
    (fuel : ℕ) (t : RsbTable) (from len : ℕ) (r : DirRsb)
    → ltb dlm_resname_maxlen len ≡ false
    → (from == t.env.our_nodeid) ≡ false
    → (t.env.hash_nodeid == t.env.our_nodeid) ≡ true
    → ((k : ℕ) → t.env.allocate_rsb k ≡ true)
    → t.keep ≡ some r
    → t.toss ≡ none
    → Disagrees (dlm_master_notify (suc fuel) t from len) from (node r.master_nodeid)
unfolding dlm_master_notify
dlm_master_notify-Disagrees fuel t from len r a b c al k e =
    rw (if_directory-cases t from len (notify_loop (suc fuel) from t) a b c)
      (notify_loop-Disagrees fuel from t r al k e)
