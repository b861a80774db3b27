-- ===== src/Directory/Master.antt =====
-- What the directory promises: fs/dlm/lock.c 892-1105 and 4756-4818.
use lockify.Base.{
  ℕ, zero, suc, ◌+◌, ◌≡◌, refl, ap, ◌∙◌, Bool, true, false, ◌&&◌, Option, none, some, if◌then◌else◌,
  ◌==◌, ltb, arith,
}
use lockify.State.Events.{node, Errno, success, eexist, is_success}
use lockify.Args.{dlm_resname_maxlen}
use lockify.Directory.{
  DirRsb, DirEnv, RsbTable, Reply, reply, pre_rsb_struct, get_rsb_struct, insert_toss, rsb_of,
  notify_toss, notify_loop, if_directory, dlm_master_notify,
}

-- Both trees are as before.
pub record SameTrees (s t : RsbTable) : Type 0 where
  pub keep : t.keep ≡ s.keep
  pub toss : t.toss ≡ s.toss
  pub env : t.env ≡ s.env

pub pre_rsb_struct-SameTrees : (t : RsbTable) → SameTrees t (pre_rsb_struct t).0
unfolding pre_rsb_struct
pre_rsb_struct-SameTrees t = record { keep = ground arith; toss = ground arith; env = ground arith }

pub get_rsb_struct-SameTrees : (t : RsbTable) → SameTrees t (get_rsb_struct t).0
unfolding get_rsb_struct
get_rsb_struct-SameTrees t = record { keep = ground arith; toss = ground arith; env = ground arith }

-- With memory there is always one in stock.
pub pre_rsb_struct-success :
    (t : RsbTable) → ((k : ℕ) → t.env.allocate_rsb k ≡ true) → (pre_rsb_struct t).1 ≡ success
unfolding pre_rsb_struct
pre_rsb_struct-success t a = ground (arith, a t.allocs, a (t.allocs + 1))

insert_toss-taken :
    (r old : DirRsb) (t : RsbTable) → t.toss ≡ some old → insert_toss r t ≡ (t, eexist)
unfolding insert_toss
insert_toss-taken r old t e =
    ap
      (λ (o : Option DirRsb). elim o as (λ _. RsbTable × Errno) [
        | some old ↦ (t, eexist)
        | none ↦ (record t { toss = some r }, success)
      ])
      e

notify_toss-taken :
    (retry : RsbTable → Reply) (from : ℕ) (t : RsbTable) (old : DirRsb)
    → t.toss ≡ some old
    → ((u : RsbTable) → u.toss ≡ some old → u.env ≡ t.env → (retry u).finished ≡ false)
    → (notify_toss retry from t).finished ≡ false
unfolding notify_toss
notify_toss-taken retry from t old e again =
    rw (insert_toss-taken (rsb_of (node from) from t.env.our_nodeid) old u (q.toss ∙ e))
      (turn (is_success (get_rsb_struct t).1))
  where
    u : RsbTable
    u = (get_rsb_struct t).0

    q : SameTrees t u
    q = get_rsb_struct-SameTrees t

    turn :
        (b : Bool)
        → (if b && is_success eexist
            then reply u success (some (node from))
            else retry (if b then u else u)).finished
          ≡ false
    turn true = again u (q.toss ∙ e) q.env
    turn false = again u (q.toss ∙ e) q.env

notify_loop-retries :
    (fuel from : ℕ) (t : RsbTable) (old : DirRsb)
    → ((k : ℕ) → t.env.allocate_rsb k ≡ true)
    → t.toss ≡ some old
    → (notify_loop fuel from t).finished ≡ false
unfolding notify_loop
notify_loop-retries zero from t old a e = refl
notify_loop-retries (suc fuel) from t old a e = rw (ap is_success (pre_rsb_struct-success t a)) (
    notify_toss-taken (notify_loop fuel from) from (pre_rsb_struct t).0 old (q.toss ∙ e) λ u e' env.
      notify_loop-retries fuel from u old
        (λ k. ap (λ (v : DirEnv). v.allocate_rsb k) (env ∙ q.env) ∙ a k) e')
  where
    q : SameTrees t (pre_rsb_struct t).0
    q = pre_rsb_struct-SameTrees t

pub if_directory-cases :
    (t : RsbTable) (from len : ℕ) (r : Reply)
    → ltb dlm_resname_maxlen len ≡ false
    → (from == t.env.our_nodeid) ≡ false
    → (t.env.hash_nodeid == t.env.our_nodeid) ≡ true
    → if_directory t from len r ≡ r
if_directory-cases t from len r a b c = rw (a, b, c) refl

-- On the directory node, with a good name from another node, with memory, and with the name in
-- the toss tree, a notification never comes to an end, however many turns its retry loop is
-- given.
pub dlm_master_notify-retries :
    (fuel : ℕ) (t : RsbTable) (from len : ℕ) (old : DirRsb)
    → ltb dlm_resname_maxlen len ≡ false
    → (from == t.env.our_nodeid) ≡ false
    → (t.env.hash_nodeid == t.env.our_nodeid) ≡ true
    → ((k : ℕ) → t.env.allocate_rsb k ≡ true)
    → t.toss ≡ some old
    → (dlm_master_notify fuel t from len).finished ≡ false
unfolding dlm_master_notify
dlm_master_notify-retries fuel t from len old a b c al e =
    rw (if_directory-cases t from len (notify_loop fuel from t) a b c)
      (notify_loop-retries fuel from t old al e)
