-- ===== src/Directory/Kept.antt =====
-- What becomes of the directory's record of a name that another node masters, whatever is done with
-- the table: fs/dlm/lock.c 541-720, 892-1105, 1141-1156, 1608-1740 and 4272-4358.
use lockify.Base.{
  ℕ, ◌≡◌, refl, sym, ap, ◌∙◌, Bool, true, false, not, ◌&&◌, ◌||◌, List, [], ◌∷◌, Option, none, some,
  if◌then◌else◌, ◌==◌, ltb, arith,
}
use lockify.State.Events.{node, is_success}
use lockify.Args.{dlm_resname_maxlen}
use lockify.Directory.{
  DirRsb, RsbTable, Reply, LookupFlags, lookup_loop, if_directory, dlm_master_lookup,
}
use lockify.Directory.Known.{
  in_trees, master_of, has_master, is_normal, if_directory-error, known-loop,
}
use lockify.Directory.Find.{FindFlags, find_rsb, drop_rsb}
use lockify.Directory.Remove.{
  is_record, is_mastered, put_toss, scan_toss, remove_toss, receive_remove,
}
use lockify.Directory.Keeps.{is_of, is_kept, is_recorded, choose-kept, lookup-is_recorded}
use lockify.Directory.KeepsFound.{find-is_recorded, drop_rsb-is_recorded}

-- What the toss tree has is the record.
toss-is_of :
    (m our : ℕ) (keep toss : Option DirRsb) (r : DirRsb)
    → toss ≡ some r
    → is_kept m our keep toss ≡ true
    → is_of m our r ≡ true
toss-is_of m our none (some x) r e h = ground (arith, e, h)
toss-is_of m our (some k) (some x) r e h = absurd (ground (arith, h))
toss-is_of m our keep none r e h = absurd (ground (arith, e))

toss-kept :
    {A : Type 0} (p : A → Bool) (o : Option DirRsb) (x : A) (f : DirRsb → A)
    → p x ≡ true
    → ((r : DirRsb) → o ≡ some r → p (f r) ≡ true)
    → p (elim o as (λ _. A) [ none ↦ x | some r ↦ f r ]) ≡ true
toss-kept p none x f h k = h
toss-kept p (some r) x f h k = k r refl

scan_toss-is_recorded :
    (m : ℕ) (t : RsbTable) (expired : Bool)
    → is_recorded m t ≡ true
    → is_recorded m (scan_toss t expired).0 ≡ true
unfolding scan_toss
scan_toss-is_recorded m t expired h =
    toss-kept (λ (x : RsbTable × Bool). is_recorded m x.0) t.toss (t, false) _ h
      λ r e.
        choose-kept (λ (x : RsbTable × Bool). is_recorded m x.0) (t, false)
          (if is_mastered t r then (t, true) else ((put_toss t r).0, false))
          (is_record t r || not expired) (λ _. h)
          λ b. absurd (ground (arith, h, b, toss-is_of m t.env.our_nodeid t.keep t.toss r e))

remove_toss-is_recorded :
    (m : ℕ) (t : RsbTable) (expired : Bool)
    → is_recorded m t ≡ true
    → is_recorded m (remove_toss t expired).0 ≡ true
unfolding remove_toss
remove_toss-is_recorded m t expired h =
    toss-kept (λ (x : RsbTable × Bool). is_recorded m x.0) t.toss (t, false) _ h
      λ r e.
        choose-kept (λ (x : RsbTable × Bool). is_recorded m x.0) (t, false) (put_toss t r)
          (not (r.master_nodeid == t.env.our_nodeid)
            || r.dir_nodeid == t.env.our_nodeid
            || not expired)
          (λ _. h)
          λ b. absurd (ground (arith, h, b, toss-is_of m t.env.our_nodeid t.keep t.toss r e))

receive_remove-is_recorded :
    (m : ℕ) (t : RsbTable) (from len : ℕ)
    → not (from == m) ≡ true
    → is_recorded m t ≡ true
    → is_recorded m (receive_remove t from len) ≡ true
unfolding receive_remove
receive_remove-is_recorded m t from len n h = toss-kept (is_recorded m) t.toss t _ h λ r e.
    choose-kept (is_recorded m) t (if not (r.master_nodeid == from) then t else (put_toss t r).0)
      (ltb dlm_resname_maxlen len || not (t.env.hash_nodeid == t.env.our_nodeid)) (λ _. h)
      λ _.
        choose-kept (is_recorded m) t (put_toss t r).0 (not (r.master_nodeid == from)) (λ _. h)
          λ b. absurd (ground (arith, n, h, b, toss-is_of m t.env.our_nodeid t.keep t.toss r e))

-- What is done with the table.
pub data Op : Type 0 where
  lookup : (fuel from len : ℕ) → LookupFlags → Op
  find : (fuel from len : ℕ) → FindFlags → Op
  put : Op
  scan : (expired : Bool) → Op
  remove : (expired : Bool) → Op
  removed : (from len : ℕ) → Op

unfoldable pub apply : Op → RsbTable → RsbTable
apply (Op.lookup fuel from len f) t = (dlm_master_lookup fuel t from len f).after
apply (Op.find fuel from len f) t = (find_rsb fuel t from len f).after
apply Op.put t = drop_rsb t
apply (Op.scan expired) t = (scan_toss t expired).0
apply (Op.remove expired) t = (remove_toss t expired).0
apply (Op.removed from len) t = receive_remove t from len

unfoldable pub apply_all : List Op → RsbTable → RsbTable
apply_all [] t = t
apply_all (o ∷ os) t = apply_all os (apply o t)

-- In normal operation, no node sends a message to itself, and `m` does not ask for the removal.
abbrev pub allowed : ℕ → ℕ → Op → Bool
allowed m our (Op.lookup fuel from len f) = is_normal f
allowed m our (Op.find fuel from len f) = not (f.receive_request && from == our)
allowed m our (Op.removed from len) = not (from == m)
allowed m our _ = true

unfoldable pub all_allowed : ℕ → RsbTable → List Op → Bool
all_allowed m t [] = true
all_allowed m t (o ∷ os) = allowed m t.env.our_nodeid o && all_allowed m (apply o t) os

apply-is_recorded :
    (m : ℕ) (o : Op) (t : RsbTable)
    → allowed m t.env.our_nodeid o ≡ true
    → is_recorded m t ≡ true
    → is_recorded m (apply o t) ≡ true
unfolding apply
apply-is_recorded m (Op.lookup fuel from len f) t a h = lookup-is_recorded m fuel t from len f a h
apply-is_recorded m (Op.find fuel from len f) t a h = find-is_recorded m fuel t from len f a h
apply-is_recorded m Op.put t a h = drop_rsb-is_recorded m t h
apply-is_recorded m (Op.scan expired) t a h = scan_toss-is_recorded m t expired h
apply-is_recorded m (Op.remove expired) t a h = remove_toss-is_recorded m t expired h
apply-is_recorded m (Op.removed from len) t a h = receive_remove-is_recorded m t from len a h

apply_all-is_recorded :
    (m : ℕ) (os : List Op) (t : RsbTable)
    → all_allowed m t os ≡ true
    → is_recorded m t ≡ true
    → is_recorded m (apply_all os t) ≡ true
unfolding apply_all all_allowed
apply_all-is_recorded m [] t a h = h
apply_all-is_recorded m (o ∷ os) t a h =
    apply_all-is_recorded m os (apply o t) (ground (arith, a))
      (apply-is_recorded m o t (ground (arith, a)) h)

kept-master :
    (m our : ℕ) (keep toss : Option DirRsb)
    → is_kept m our keep toss ≡ true
    → (m == 0) ≡ false
    → in_trees (λ (r : DirRsb). some (node r.master_nodeid)) none keep toss ≡ some (node m)
      × in_trees (λ (r : DirRsb). not (r.master_nodeid == 0)) false keep toss ≡ true
kept-master m our (some r) none h z =
    (ap (λ (k : ℕ). some (node k)) (ground (arith, h)), ground (arith, h, z))
kept-master m our none (some r) h z =
    (ap (λ (k : ℕ). some (node k)) (ground (arith, h)), ground (arith, h, z))
kept-master m our none none h z = absurd (ground (arith, h))
kept-master m our (some r) (some x) h z = absurd (ground (arith, h))

-- If the lockspace has a directory, this node has the record of the name, and another node m,
-- which is not 0, is the master, then after any history of lookups in normal operation, of
-- find_rsb for other nodes or for this node itself, of releases, scans of the toss tree and
-- messages to remove the name from nodes other than m, a lookup that succeeds is told m.
pub apply_all-dlm_master_lookup :
    (m : ℕ) (os : List Op) (t : RsbTable) (fuel from len : ℕ) (f : LookupFlags)
    → is_recorded m t ≡ true
    → all_allowed m t os ≡ true
    → is_normal f ≡ true
    → is_success (dlm_master_lookup fuel (apply_all os t) from len f).error ≡ true
    → (dlm_master_lookup fuel (apply_all os t) from len f).r_nodeid ≡ some (node m)
unfolding dlm_master_lookup
apply_all-dlm_master_lookup m os t fuel from len f h a n ok =
    ap (λ (r : Reply). r.r_nodeid) d
    ∙ known-loop fuel from f u n known.1 (sym (ap (λ (r : Reply). is_success r.error) d) ∙ ok)
    ∙ known.0
  where
    u : RsbTable
    u = apply_all os t

    recorded : is_recorded m u ≡ true
    recorded = apply_all-is_recorded m os t a h

    known : (master_of u ≡ some (node m)) × (has_master u ≡ true)
    known =
        kept-master m u.env.our_nodeid u.keep u.toss (ground (arith, recorded))
          (ground (arith, recorded))

    d : if_directory u from len (lookup_loop fuel from f u) ≡ lookup_loop fuel from f u
    d = if_directory-error u from len (lookup_loop fuel from f u) ok
