-- ===== src/Directory/Agree.antt =====
-- Whoever asks the directory is told the same master: fs/dlm/lock.c 892-1105 and 4756-4818.
use lockify.Base.{
  ℕ, zero, suc, ◌≡◌, refl, ap, ◌∙◌, false, not, Option, none, some, if◌then◌else◌, ◌==◌, arith,
  Bool-cases, inl, inr,
}
use lockify.State.Events.{node, Errno, success, eexist, is_success}
use lockify.Directory.{
  DirRsb, RsbTable, Reply, reply, LookupFlags, pre_rsb_struct, get_rsb_struct, insert_toss, rsb_of,
  add_toss, notify_toss, lookup_loop, notify_loop, if_directory, dlm_master_lookup,
  dlm_master_notify,
}
use lockify.Directory.Master.{SameTrees, pre_rsb_struct-SameTrees, get_rsb_struct-SameTrees}

pub insert_toss-absent :
    (r : DirRsb) (t : RsbTable)
    → t.toss ≡ none
    → insert_toss r t ≡ (record t { toss = some r }, success)
unfolding insert_toss
insert_toss-absent r t e =
    ap
      (λ (o : Option DirRsb). elim o as (λ _. RsbTable × Errno) [
        | some old ↦ (t, eexist)
        | none ↦ (record t { toss = some r }, success)
      ])
      e

none_left : (t : RsbTable) → is_success (get_rsb_struct t).1 ≡ false → (get_rsb_struct t).0 ≡ t
unfolding get_rsb_struct
none_left t h = elim (Bool-cases (t.ls_new_rsb == 0)) [
  | inl z ↦ rw (z, get_rsb_struct) refl
  | inr nz ↦ absurd (ground arith)
]

-- Two retry loops that agree where neither tree has the name.
add_toss-absent :
    (f g : RsbTable → Reply) (from : ℕ) (t : RsbTable)
    → t.toss ≡ none
    → f t ≡ g t
    → notify_toss f from t ≡ add_toss g from t
unfolding add_toss notify_toss
add_toss-absent f g from t e same = elim (Bool-cases (is_success (get_rsb_struct t).1)) [
  | inl got ↦
      rw
        (
          insert_toss-absent (rsb_of (node from) from t.env.our_nodeid) (get_rsb_struct t).0
              (q.toss ∙ e),
          got,
        )
        refl
  | inr empty ↦ rw (empty, none_left t empty) same
]
  where
    q : SameTrees t (get_rsb_struct t).0
    q = get_rsb_struct-SameTrees t

loops-agree :
    (fuel from : ℕ) (t : RsbTable) (f : LookupFlags)
    → t.keep ≡ none
    → t.toss ≡ none
    → notify_loop fuel from t ≡ lookup_loop fuel from f t
unfolding notify_loop lookup_loop
loops-agree zero from t f k e = refl
loops-agree (suc fuel) from t f k e =
    rw (q.keep ∙ k, q.toss ∙ e)
      (ap
        (λ (r : Reply).
          if not (is_success (pre_rsb_struct t).1)
          then reply (pre_rsb_struct t).0 (pre_rsb_struct t).1 none
          else r)
        (add_toss-absent (notify_loop fuel from) (lookup_loop fuel from f) from (pre_rsb_struct t).0
          (q.toss ∙ e) (loops-agree fuel from (pre_rsb_struct t).0 f (q.keep ∙ k) (q.toss ∙ e))))
  where
    q : SameTrees t (pre_rsb_struct t).0
    q = pre_rsb_struct-SameTrees t

-- Where neither tree has the name, a notification does what a lookup does, with the same answer
-- and the same table: a self-owner notification takes the place of a lookup of a new name.
pub dlm_master_notify-dlm_master_lookup :
    (fuel : ℕ) (t : RsbTable) (from len : ℕ) (f : LookupFlags)
    → t.keep ≡ none
    → t.toss ≡ none
    → dlm_master_notify fuel t from len ≡ dlm_master_lookup fuel t from len f
unfolding dlm_master_notify dlm_master_lookup
dlm_master_notify-dlm_master_lookup fuel t from len f k e =
    ap (if_directory t from len) (loops-agree fuel from t f k e)
