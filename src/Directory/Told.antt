-- ===== src/Directory/Told.antt =====
-- A name has one master, and every lookup tells it: fs/dlm/lock.c 892-1105.
use lockify.Base.{
  ℕ, zero, suc, ◌≡◌, refl, sym, subst, ap, ◌∙◌, Bool, true, false, not, ◌&&◌, Option, none, some,
  if◌then◌else◌, ◌==◌, arith,
}
use lockify.State.Events.{node, Errno, success, is_success}
use lockify.Directory.{
  DirRsb, RsbTable, Reply, reply, LookupFlags, pre_rsb_struct, get_rsb_struct, rsb_of, add_toss,
  lookup_loop, if_directory, dlm_master_lookup, looked_up,
}
use lockify.Directory.Master.{SameTrees, get_rsb_struct-SameTrees}
use lockify.Directory.Agree.{insert_toss-absent}
use lockify.Directory.Known.{
  in_trees, master_of, has_master, is_normal, looked_up-normal, if_directory-error, known-loop,
}

Told : Reply → Type 0
Told r = (r.r_nodeid ≡ master_of r.after) × (has_master r.after ≡ true)

if-Told :
    (x y : Reply) (b : Bool)
    → (b ≡ true → is_success x.error ≡ true → Told x)
    → (is_success y.error ≡ true → Told y)
    → is_success (if b then x else y).error ≡ true
    → Told (if b then x else y)
if-Told x y true f g = f refl
if-Told x y false f g = g

option-Told :
    (o : Option DirRsb) (k : DirRsb → Reply) (y : Reply)
    → ((r : DirRsb) → Told (k r))
    → (o ≡ none → is_success y.error ≡ true → Told y)
    → is_success (elim o as (λ _. Reply) [ some r ↦ k r | none ↦ y ]).error ≡ true
    → Told (elim o as (λ _. Reply) [ some r ↦ k r | none ↦ y ])
option-Told (some r) k y f g = λ _. f r
option-Told none k y f g = g refl

kept-Told :
    (t : RsbTable) (r : DirRsb) (from : ℕ) (f : LookupFlags)
    → is_normal f ≡ true
    → (from == 0) ≡ false
    → let r' = looked_up t.env from f r in
      Told (reply (record t { keep = some r' }) success (some (node r'.master_nodeid)))
unfolding Told
kept-Told t r from f n z = (refl, ground (arith, looked_up-normal t.env from f r n))

tossed-Told :
    (t : RsbTable) (r : DirRsb) (from : ℕ) (f : LookupFlags)
    → is_normal f ≡ true
    → (from == 0) ≡ false
    → t.keep ≡ none
    → let r' = looked_up t.env from f r in
      Told (reply (record t { toss = some r' }) success (some (node r'.master_nodeid)))
unfolding Told
tossed-Told t r from f n z k =
    let r' = looked_up t.env from f r in
    (
      ap
          (λ (o : Option DirRsb).
            in_trees (λ (r : DirRsb). some (node r.master_nodeid)) none o (some r'))
          (sym k),
      ap
            (λ (o : Option DirRsb).
              in_trees (λ (r : DirRsb). not (r.master_nodeid == 0)) false o (some r'))
            k
          ∙ ground (arith, looked_up-normal t.env from f r n),
    )

add_toss-Told :
    (retry : RsbTable → Reply) (from : ℕ) (t : RsbTable)
    → (from == 0) ≡ false
    → t.keep ≡ none
    → t.toss ≡ none
    → ((u : RsbTable) → is_success (retry u).error ≡ true → Told (retry u))
    → is_success (add_toss retry from t).error ≡ true
    → Told (add_toss retry from t)
unfolding add_toss Told
add_toss-Told retry from t z k e again =
    rw (insert_toss-absent r u (q.toss ∙ e))
      (if-Told _ _ (is_success (get_rsb_struct t).1 && true) (λ _ _. added) (again _))
  where
    r : DirRsb
    r = rsb_of (node from) from t.env.our_nodeid

    u : RsbTable
    u = (get_rsb_struct t).0

    q : SameTrees t u
    q = get_rsb_struct-SameTrees t

    added : Told (reply (record u { toss = some r }) success (some (node from)))
    added = (
      ap
          (λ (o : Option DirRsb).
            in_trees (λ (r : DirRsb). some (node r.master_nodeid)) none o (some r))
          (sym (q.keep ∙ k)),
      ap
            (λ (o : Option DirRsb).
              in_trees (λ (r : DirRsb). not (r.master_nodeid == 0)) false o (some r))
            (q.keep ∙ k)
          ∙ ap not z,
    )

lookup_loop-Told :
    (fuel from : ℕ) (f : LookupFlags) (t : RsbTable)
    → is_normal f ≡ true
    → (from == 0) ≡ false
    → is_success (lookup_loop fuel from f t).error ≡ true
    → Told (lookup_loop fuel from f t)
unfolding lookup_loop
lookup_loop-Told zero from f t n z h = absurd (ground arith)
lookup_loop-Told (suc fuel) from f s n z h =
    if-Told _ _ (not (is_success error)) (λ b ok. absurd (ground (arith, b, ok)))
      (option-Told t.keep _ _ (λ r. kept-Told t r from f n z)
        λ k.
          option-Told t.toss _ _ (λ r. tossed-Told t r from f n z k)
            λ e.
              add_toss-Told (lookup_loop fuel from f) from t z k e
                (λ u. lookup_loop-Told fuel from f u n z))
      h
  where
    t : RsbTable
    t = (pre_rsb_struct s).0

    error : Errno
    error = (pre_rsb_struct s).1

-- The master that is told is the one that the table has.
pub lookup-Told :
    (fuel : ℕ) (t : RsbTable) (from len : ℕ) (f : LookupFlags)
    → is_normal f ≡ true
    → (from == 0) ≡ false
    → is_success (dlm_master_lookup fuel t from len f).error ≡ true
    → (dlm_master_lookup fuel t from len f).r_nodeid
        ≡ master_of (dlm_master_lookup fuel t from len f).after
      × has_master (dlm_master_lookup fuel t from len f).after ≡ true
unfolding dlm_master_lookup Told
lookup-Told fuel t from len f n z h =
    subst Told (sym d)
      (lookup_loop-Told fuel from f t n z (sym (ap (λ (r : Reply). is_success r.error) d) ∙ h))
  where
    d : if_directory t from len (lookup_loop fuel from f t) ≡ lookup_loop fuel from f t
    d = if_directory-error t from len (lookup_loop fuel from f t) h

-- In normal operation, if a node, whose id is not 0, has looked up the master of a name, any
-- node that looks it up next is told the same master, whichever tree has the name.
pub dlm_master_lookup-agrees :
    (fuel fuel' : ℕ) (t : RsbTable) (a b len len' : ℕ) (f f' : LookupFlags)
    → is_normal f ≡ true
    → is_normal f' ≡ true
    → (a == 0) ≡ false
    → is_success (dlm_master_lookup fuel t a len f).error ≡ true
    → is_success (dlm_master_lookup fuel' (dlm_master_lookup fuel t a len f).after b len' f').error
      ≡ true
    → (dlm_master_lookup fuel' (dlm_master_lookup fuel t a len f).after b len' f').r_nodeid
      ≡ (dlm_master_lookup fuel t a len f).r_nodeid
unfolding dlm_master_lookup Told
dlm_master_lookup-agrees fuel fuel' t a b len len' f f' n n' z h h' =
    ap (λ (r : Reply). r.r_nodeid) d'
    ∙ known-loop fuel' b f' r.after n' told.1 (sym (ap (λ (r : Reply). is_success r.error) d') ∙ h')
    ∙ sym told.0
  where
    r : Reply
    r = if_directory t a len (lookup_loop fuel a f t)

    d : r ≡ lookup_loop fuel a f t
    d = if_directory-error t a len (lookup_loop fuel a f t) h

    d' :
        if_directory r.after b len' (lookup_loop fuel' b f' r.after)
        ≡ lookup_loop fuel' b f' r.after
    d' = if_directory-error r.after b len' (lookup_loop fuel' b f' r.after) h'

    told : Told r
    told = lookup-Told fuel t a len f n z h
