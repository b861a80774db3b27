-- ===== src/Directory/Ends.antt =====
-- A lookup comes to an end: fs/dlm/lock.c 364-431 and 1032-1105.
use lockify.Base.{
  ℕ, suc, ◌≡◌, refl, ◌∙◌, Bool, true, false, not, ◌||◌, Option, none, some, if◌then◌else◌, ◌==◌,
  ltb, arith,
}
use lockify.State.Events.{node, is_success}
use lockify.Args.{dlm_resname_maxlen}
use lockify.Directory.{
  DirRsb, RsbTable, Reply, LookupFlags, pre_rsb_struct, get_rsb_struct, rsb_of, add_toss,
  lookup_loop, dlm_master_lookup,
}
use lockify.Directory.Master.{get_rsb_struct-SameTrees}
use lockify.Directory.Agree.{insert_toss-absent}

-- After `pre_rsb_struct` there is a resource in stock.
pub stocked :
    (s : RsbTable)
    → is_success (pre_rsb_struct s).1 ≡ true
    → is_success (get_rsb_struct (pre_rsb_struct s).0).1 ≡ true
unfolding pre_rsb_struct get_rsb_struct
stocked s h = ground (arith, h)

finished-if :
    (x y : Reply) (b : Bool)
    → x.finished ≡ true
    → (b ≡ false → y.finished ≡ true)
    → (if b then x else y).finished ≡ true
finished-if x y true f g = f
finished-if x y false f g = g refl

finished-trees :
    (keep toss : Option DirRsb) (kf tf : DirRsb → Reply) (y : Reply)
    → ((r : DirRsb) → (kf r).finished ≡ true)
    → ((r : DirRsb) → (tf r).finished ≡ true)
    → (toss ≡ none → y.finished ≡ true)
    → (elim keep as (λ _. Reply) [
      | some r ↦ kf r
      | none ↦ elim toss as (λ _. Reply) [ some r ↦ tf r | none ↦ y ]
    ]).finished
      ≡ true
finished-trees (some r) toss kf tf y a b c = a r
finished-trees none (some r) kf tf y a b c = b r
finished-trees none none kf tf y a b c = c refl

add_toss-finished :
    (retry : RsbTable → Reply) (from : ℕ) (t : RsbTable)
    → is_success (get_rsb_struct t).1 ≡ true
    → t.toss ≡ none
    → (add_toss retry from t).finished ≡ true
unfolding add_toss
add_toss-finished retry from t got e =
    rw
      (
        insert_toss-absent (rsb_of (node from) from t.env.our_nodeid) (get_rsb_struct t).0
            ((get_rsb_struct-SameTrees t).toss ∙ e),
        got,
      )
      refl

lookup_loop-finished :
    (fuel : ℕ) (t : RsbTable) (from : ℕ) (f : LookupFlags)
    → (lookup_loop (suc fuel) from f t).finished ≡ true
unfolding lookup_loop
lookup_loop-finished fuel t from f =
    finished-if _ _ (not (is_success (pre_rsb_struct t).1)) refl λ ok.
      finished-trees u.keep u.toss _ _ _ (λ r. refl) (λ r. refl)
        (add_toss-finished (lookup_loop fuel from f) from u (stocked t (ground (arith, ok))))
  where
    u : RsbTable
    u = (pre_rsb_struct t).0

-- A lookup comes to an end in the first turn of its retry loop, whatever the table, the flags
-- and the memory: it answers or fails.
pub dlm_master_lookup-finished :
    (fuel : ℕ) (t : RsbTable) (from len : ℕ) (f : LookupFlags)
    → (dlm_master_lookup (suc fuel) t from len f).finished ≡ true
unfolding dlm_master_lookup
dlm_master_lookup-finished fuel t from len f =
    finished-if _ _ (ltb dlm_resname_maxlen len || from == t.env.our_nodeid) refl λ _.
      finished-if _ _ (not (t.env.hash_nodeid == t.env.our_nodeid)) refl
        λ _. lookup_loop-finished fuel t from f
