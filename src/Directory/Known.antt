-- ===== src/Directory/Known.antt =====
-- A lookup tells the master that the table has: fs/dlm/lock.c 892-1105.
use lockify.Base.{
  ℕ, zero, suc, ◌≡◌, refl, sym, ap, ◌∙◌, Bool, true, false, not, ◌&&◌, ◌||◌, Option, none, some,
  if◌then◌else◌, ◌==◌, ltb, arith,
}
use lockify.State.Events.{NodeId, node, unset, einval, is_success}
use lockify.Args.{dlm_resname_maxlen}
use lockify.Directory.{
  DirRsb, DirEnv, RsbTable, Reply, reply, LookupFlags, pre_rsb_struct, lookup_loop, if_directory,
  looked_up, fix_removed, fix_from_master, fix_unknown,
}
use lockify.Directory.Master.{SameTrees, pre_rsb_struct-SameTrees}

-- The master that the table has for the name.
abbrev pub in_trees {ℓ} : {A : Type ℓ} → (DirRsb → A) → A → Option DirRsb → Option DirRsb → A
in_trees f d (some r) toss = f r
in_trees f d none (some r) = f r
in_trees f d none none = d

abbrev pub master_of : RsbTable → Option NodeId
master_of t = in_trees (λ (r : DirRsb). some (node r.master_nodeid)) none t.keep t.toss

-- The table has a master for the name, and knows it.
abbrev pub has_master : RsbTable → Bool
has_master t = in_trees (λ (r : DirRsb). not (r.master_nodeid == 0)) false t.keep t.toss

abbrev pub is_normal : LookupFlags → Bool
is_normal f = not f.recover_dir && not f.recover_master

pub looked_up-normal :
    (e : DirEnv) (from : ℕ) (f : LookupFlags) (r : DirRsb)
    → is_normal f ≡ true
    → (looked_up e from f r).master_nodeid
      ≡ (if r.master_nodeid == 0 then from else r.master_nodeid)
unfolding looked_up fix_removed fix_from_master fix_unknown
looked_up-normal e from f r n = ground arith

error-if :
    (x y : Reply) (b : Bool)
    → is_success x.error ≡ false
    → is_success (if b then x else y).error ≡ true
    → (if b then x else y) ≡ y
error-if x y true e h = absurd (ground (arith, e, h))
error-if x y false e h = refl

pub if_directory-error :
    (t : RsbTable) (from len : ℕ) (r : Reply)
    → is_success (if_directory t from len r).error ≡ true
    → if_directory t from len r ≡ r
if_directory-error t from len r h =
    e
    ∙ error-if _ _ (not (t.env.hash_nodeid == t.env.our_nodeid)) refl
        (sym (ap (λ (r : Reply). is_success r.error) e) ∙ h)
  where
    e :
        if_directory t from len r
        ≡ (if not (t.env.hash_nodeid == t.env.our_nodeid) then reply t einval (some unset) else r)
    e = error-if _ _ (ltb dlm_resname_maxlen len || from == t.env.our_nodeid) refl h

known-trees :
    (keep toss : Option DirRsb) (kf tf : DirRsb → Reply) (y : Reply)
    → in_trees (λ (r : DirRsb). not (r.master_nodeid == 0)) false keep toss ≡ true
    → ((r : DirRsb)
        → not (r.master_nodeid == 0) ≡ true
        → (kf r).r_nodeid ≡ some (node r.master_nodeid))
    → ((r : DirRsb)
        → not (r.master_nodeid == 0) ≡ true
        → (tf r).r_nodeid ≡ some (node r.master_nodeid))
    → (elim keep as (λ _. Reply) [
      | some r ↦ kf r
      | none ↦ elim toss as (λ _. Reply) [ some r ↦ tf r | none ↦ y ]
    ]).r_nodeid
      ≡ in_trees (λ (r : DirRsb). some (node r.master_nodeid)) none keep toss
known-trees (some r) toss kf tf y m a b = a r m
known-trees none (some r) kf tf y m a b = b r m
known-trees none none kf tf y m a b = absurd (ground (arith, m))

known-if :
    (x y : Reply) (b : Bool) (o : Option NodeId)
    → is_success x.error ≡ not b
    → y.r_nodeid ≡ o
    → is_success (if b then x else y).error ≡ true
    → (if b then x else y).r_nodeid ≡ o
known-if x y true o e q h = absurd (ground (arith, e, h))
known-if x y false o e q h = q

known-looked_up :
    (e : DirEnv) (from : ℕ) (f : LookupFlags) (r : DirRsb)
    → is_normal f ≡ true
    → not (r.master_nodeid == 0) ≡ true
    → some (node (looked_up e from f r).master_nodeid) ≡ some (node r.master_nodeid)
known-looked_up e from f r n m =
    ap (λ (k : ℕ). some (node k)) (looked_up-normal e from f r n ∙ ground (arith, m))

-- A table that has a master for the name: a lookup tells it.
pub known-loop :
    (fuel from : ℕ) (f : LookupFlags) (t : RsbTable)
    → is_normal f ≡ true
    → has_master t ≡ true
    → is_success (lookup_loop fuel from f t).error ≡ true
    → (lookup_loop fuel from f t).r_nodeid ≡ master_of t
unfolding lookup_loop
known-loop zero from f t n m h = absurd (ground arith)
known-loop (suc fuel) from f s n m h =
    known-if _ _ (not (is_success (pre_rsb_struct s).1)) (master_of s) (ground arith)
      (known-trees t.keep t.toss _ _ _ (rw (q.keep, q.toss) m)
          (λ r. known-looked_up t.env from f r n) (λ r. known-looked_up t.env from f r n)
        ∙ rw (q.keep, q.toss) refl)
      h
  where
    t : RsbTable
    t = (pre_rsb_struct s).0

    q : SameTrees s t
    q = pre_rsb_struct-SameTrees s
