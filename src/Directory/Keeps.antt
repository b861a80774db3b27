-- ===== src/Directory/Keeps.antt =====
-- The directory keeps its record of a name that another node masters: fs/dlm/lock.c 541-720, 892-1105,
-- 1141-1156, 1608-1740 and 4272-4358.
use lockify.Base.{
  ℕ, zero, suc, ◌≡◌, refl, Bool, true, false, not, ◌&&◌, Option, none, some, if◌then◌else◌, ◌==◌,
  arith,
}
use lockify.State.Events.{is_success}
use lockify.Directory.{
  DirRsb, RsbTable, Reply, reply, LookupFlags, pre_rsb_struct, lookup_loop, looked_up, fix_removed,
  fix_from_master, fix_unknown, dlm_master_lookup,
}
use lockify.Directory.Master.{SameTrees, pre_rsb_struct-SameTrees}
use lockify.Directory.Known.{is_normal, looked_up-normal}

abbrev pub is_of : ℕ → ℕ → DirRsb → Bool
is_of m our r = r.master_nodeid == m && r.dir_nodeid == our

-- One tree has the name, with `m` as its master and this node as its directory.
abbrev pub is_kept : ℕ → ℕ → Option DirRsb → Option DirRsb → Bool
is_kept m our (some r) none = is_of m our r
is_kept m our none (some r) = is_of m our r
is_kept m our _ _ = false

-- The lockspace has a directory, this node has the record of the name, and another node is the master.
abbrev pub is_recorded : ℕ → RsbTable → Bool
is_recorded m t =
    not t.env.no_directory
    && t.env.hash_nodeid == t.env.our_nodeid
    && not (m == t.env.our_nodeid)
    && not (m == 0)
    && is_kept m t.env.our_nodeid t.keep t.toss

pub choose-kept :
    {A : Type 0} (p : A → Bool) (x y : A) (b : Bool)
    → (b ≡ true → p x ≡ true)
    → (b ≡ false → p y ≡ true)
    → p (if b then x else y) ≡ true
choose-kept p x y true f g = f refl
choose-kept p x y false f g = g refl

-- Either tree may have it.
pub trees-kept :
    {A : Type 0} (p : A → Bool) (m our : ℕ) (keep toss : Option DirRsb) (kf tf : DirRsb → A) (y : A)
    → is_kept m our keep toss ≡ true
    → ((r : DirRsb) → keep ≡ some r → toss ≡ none → is_of m our r ≡ true → p (kf r) ≡ true)
    → ((r : DirRsb) → keep ≡ none → toss ≡ some r → is_of m our r ≡ true → p (tf r) ≡ true)
    → p (elim keep as (λ _. A) [
      | some r ↦ kf r
      | none ↦ elim toss as (λ _. A) [ some r ↦ tf r | none ↦ y ]
    ])
      ≡ true
trees-kept p m our (some r) none kf tf y h a b = a r refl refl h
trees-kept p m our none (some r) kf tf y h a b = b r refl refl h
trees-kept p m our (some r) (some x) kf tf y h a b = absurd (ground (arith, h))
trees-kept p m our none none kf tf y h a b = absurd (ground (arith, h))

pub same-is_recorded :
    (m : ℕ) (s t : RsbTable) → SameTrees s t → is_recorded m s ≡ true → is_recorded m t ≡ true
same-is_recorded m s t q h = rw (q.env, q.keep, q.toss) h

pub keep-is_recorded :
    (m : ℕ) (t : RsbTable) (r : DirRsb)
    → is_recorded m t ≡ true
    → t.toss ≡ none
    → is_of m t.env.our_nodeid r ≡ true
    → is_recorded m (record t { keep = some r }) ≡ true
keep-is_recorded m t r h e o = rw e (ground (arith, h, o))

toss-is_recorded :
    (m : ℕ) (t : RsbTable) (r : DirRsb)
    → is_recorded m t ≡ true
    → t.keep ≡ none
    → is_of m t.env.our_nodeid r ≡ true
    → is_recorded m (record t { toss = some r }) ≡ true
toss-is_recorded m t r h e o = rw e (ground (arith, h, o))

-- From one tree to the other.
pub move-is_recorded :
    (m : ℕ) (t : RsbTable) (r : DirRsb)
    → is_recorded m t ≡ true
    → is_of m t.env.our_nodeid r ≡ true
    → is_recorded m (record t { keep = some r; toss = none }) ≡ true
      × is_recorded m (record t { keep = none; toss = some r }) ≡ true
move-is_recorded m t r h o = (ground (arith, h, o), ground (arith, h, o))

looked_up-dir_nodeid :
    (t : RsbTable) (from : ℕ) (f : LookupFlags) (r : DirRsb)
    → (looked_up t.env from f r).dir_nodeid ≡ t.env.our_nodeid
unfolding looked_up fix_removed fix_from_master fix_unknown
looked_up-dir_nodeid t from f r = ground arith

looked_up-is_of :
    (m : ℕ) (t : RsbTable) (from : ℕ) (f : LookupFlags) (r : DirRsb)
    → is_normal f ≡ true
    → (m == 0) ≡ false
    → is_of m t.env.our_nodeid r ≡ true
    → is_of m t.env.our_nodeid (looked_up t.env from f r) ≡ true
looked_up-is_of m t from f r n z h =
    ground (arith, looked_up-normal t.env from f r n, looked_up-dir_nodeid t from f r, z, h)

loop-is_recorded :
    (m fuel from : ℕ) (f : LookupFlags) (s : RsbTable)
    → is_normal f ≡ true
    → is_recorded m s ≡ true
    → is_recorded m (lookup_loop fuel from f s).after ≡ true
unfolding lookup_loop
loop-is_recorded m zero from f s n h = h
loop-is_recorded m (suc fuel) from f s n h =
    choose-kept (λ (x : Reply). is_recorded m x.after) (reply t (pre_rsb_struct s).1 none) _
      (not (is_success (pre_rsb_struct s).1)) (λ _. recorded)
      λ _.
        trees-kept (λ (x : Reply). is_recorded m x.after) m t.env.our_nodeid t.keep t.toss _ _ _
          (ground (arith, recorded))
          (λ r k e o.
            keep-is_recorded m t (looked_up t.env from f r) recorded e
              (looked_up-is_of m t from f r n (ground (arith, h)) o))
          (λ r k e o.
            toss-is_recorded m t (looked_up t.env from f r) recorded k
              (looked_up-is_of m t from f r n (ground (arith, h)) o))
  where
    t : RsbTable
    t = (pre_rsb_struct s).0

    recorded : is_recorded m t ≡ true
    recorded = same-is_recorded m s t (pre_rsb_struct-SameTrees s) h

pub lookup-is_recorded :
    (m fuel : ℕ) (t : RsbTable) (from len : ℕ) (f : LookupFlags)
    → is_normal f ≡ true
    → is_recorded m t ≡ true
    → is_recorded m (dlm_master_lookup fuel t from len f).after ≡ true
unfolding dlm_master_lookup
lookup-is_recorded m fuel t from len f n h = ground (arith, h, loop-is_recorded m fuel from f t n)
