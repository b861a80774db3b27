-- ===== src/Directory/Find/Apart.antt =====
-- A name stands in one of the two trees, and `find_rsb` ends with the resource in use: fs/dlm/lock.c
-- 502-720.
use lockify.Base.{
  ℕ, suc, ◌≡◌, refl, sym, ap, ◌∙◌, Bool, true, false, not, ◌&&◌, Option, none, some, if◌then◌else◌,
  ◌==◌, ltb, arith,
}
use lockify.State.Events.{Errno, success, is_success, eexist}
use lockify.Args.{dlm_resname_maxlen}
use lockify.Directory.{DirRsb, RsbTable, pre_rsb_struct, get_rsb_struct, insert_keep}
use lockify.Directory.Master.{SameTrees, pre_rsb_struct-SameTrees, get_rsb_struct-SameTrees}
use lockify.Directory.Ends.{stocked}
use lockify.Directory.Find.{
  FindFlags, Found, found, find_rsb, find_loop, make_new, from_toss, from_other, new_rsb, mend,
  mend_nodir, nodir_toss, nodir_rsb, nodir_new, find_rsb_nodir, create,
}

abbrev pub is_some : Option DirRsb → Bool
is_some none = false
is_some (some r) = true

-- Not in both trees.
abbrev pub IsApart : RsbTable → Type 0
IsApart t = is_some t.keep && is_some t.toss ≡ false

-- The loop has ended, the name is not in both trees, and if there is no error it is in use.
pub record IsUsable (r : Found) : Type 0 where
  pub finished : r.finished ≡ true
  pub apart : IsApart r.after
  pub in_use : is_success r.error ≡ true → is_some r.after.keep ≡ true

if-IsUsable :
    (x y : Found) (b : Bool)
    → (b ≡ true → IsUsable x)
    → (b ≡ false → IsUsable y)
    → IsUsable (if b then x else y)
if-IsUsable x y true f g = f refl
if-IsUsable x y false f g = g refl

trees-IsUsable :
    (keep toss : Option DirRsb) (kf tf : DirRsb → Found) (y : Found)
    → ((r : DirRsb) → keep ≡ some r → IsUsable (kf r))
    → ((r : DirRsb) → keep ≡ none → toss ≡ some r → IsUsable (tf r))
    → (keep ≡ none → toss ≡ none → IsUsable y)
    → IsUsable (elim keep as (λ _. Found) [
      | some r ↦ kf r
      | none ↦ elim toss as (λ _. Found) [ some r ↦ tf r | none ↦ y ]
    ])
trees-IsUsable (some r) toss kf tf y a b c = a r refl
trees-IsUsable none (some r) kf tf y a b c = b r refl refl
trees-IsUsable none none kf tf y a b c = c refl refl

pub insert_keep-absent :
    (r : DirRsb) (t : RsbTable)
    → t.keep ≡ none
    → insert_keep r t ≡ (record t { keep = some r }, success)
unfolding insert_keep
insert_keep-absent r t e =
    ap
      (λ (o : Option DirRsb). elim o as (λ _. RsbTable × Errno) [
        | some old ↦ (t, eexist)
        | none ↦ (record t { keep = some r }, success)
      ])
      e

failed : (t : RsbTable) (e : Errno) → IsApart t → is_success e ≡ false → IsUsable (found t e)
failed t e a n = record { finished = refl; apart = a; in_use = λ h. absurd (ground (arith, n, h)) }

from_toss-IsUsable :
    (t : RsbTable) (from : ℕ) (f : FindFlags) (r : DirRsb)
    → t.keep ≡ none
    → IsUsable (from_toss t from f r)
unfolding from_toss
from_toss-IsUsable t from f r k =
    rw (insert_keep-absent (mend t from f r) (record t { toss = none }) k) (
      if-IsUsable _ _ (not (r.master_nodeid == t.env.our_nodeid) && from_other t from f)
        (λ _.
          failed t Errno.enotblk (ap (λ (o : Option DirRsb). is_some o && is_some t.toss) k) refl)
        (λ _. record { finished = refl; apart = refl; in_use = λ _. refl }))

make_new-IsUsable :
    (retry : RsbTable → Found) (t : RsbTable) (from : ℕ) (f : FindFlags)
    → t.keep ≡ none
    → t.toss ≡ none
    → (create t from f ≡ true → is_success (get_rsb_struct t).1 ≡ true)
    → IsUsable (make_new retry t from f)
unfolding make_new
make_new-IsUsable retry t from f k e got =
    rw (insert_keep-absent (new_rsb t from f) u (q.keep ∙ k)) (
      if-IsUsable _ _ (not (create t from f))
        (λ _. failed t Errno.ebadr (ap (λ (o : Option DirRsb). is_some o && is_some t.toss) k) refl)
        λ made.
          if-IsUsable _ _ (not (is_success (get_rsb_struct t).1))
            (λ bad. absurd (ground (arith, bad, got, made)))
            λ _.
              if-IsUsable _ _ (from_other t from f && not (t.env.hash_nodeid == t.env.our_nodeid))
                (λ _.
                  failed u Errno.enotblk
                    (ap (λ (o : Option DirRsb). is_some o && is_some u.toss) (q.keep ∙ k)) refl)
                (λ _. record {
                  finished = refl;
                  apart = ap is_some (q.toss ∙ e);
                  in_use = λ _. refl;
                }))
  where
    u : RsbTable
    u = (get_rsb_struct t).0

    q : SameTrees t u
    q = get_rsb_struct-SameTrees t

-- `pre_rsb_struct`, called where a new resource may be made.
abbrev pub prepare : RsbTable → Bool → RsbTable × Errno
prepare s b = if b then pre_rsb_struct s else (s, success)

pub prepare-SameTrees : (s : RsbTable) (b : Bool) → SameTrees s (prepare s b).0
prepare-SameTrees s true = pre_rsb_struct-SameTrees s
prepare-SameTrees s false = record { keep = refl; toss = refl; env = refl }

prepare-stocked :
    (s : RsbTable) (b : Bool)
    → is_success (prepare s b).1 ≡ true
    → b ≡ true
    → is_success (get_rsb_struct (prepare s b).0).1 ≡ true
prepare-stocked s true h e = stocked s h
prepare-stocked s false h e = cc

find_loop-IsUsable :
    (fuel : ℕ) (s : RsbTable) (from : ℕ) (f : FindFlags)
    → IsApart s
    → IsUsable (find_loop (suc fuel) from f s)
unfolding find_loop
find_loop-IsUsable fuel s from f a =
    if-IsUsable _ _ (not (is_success (prepare s c).1))
      (λ bad. failed t (prepare s c).1 apart (ground (arith, bad)))
      λ ok.
        trees-IsUsable t.keep t.toss _ _ _
          (λ r e. record { finished = refl; apart = ground (arith, apart, e); in_use = λ _. refl })
          (λ r k e. from_toss-IsUsable t from f r k)
          λ k e.
            make_new-IsUsable (find_loop fuel from f) t from f k e
              λ made. prepare-stocked s c (ground (arith, ok)) (sym same ∙ made)
  where
    c : Bool
    c = create s from f

    t : RsbTable
    t = (prepare s c).0

    q : SameTrees s t
    q = prepare-SameTrees s c

    same : create t from f ≡ c
    same = rw q.env refl

    apart : IsApart t
    apart = rw (q.keep, q.toss) a

nodir_toss-IsUsable :
    (t : RsbTable) (from : ℕ) (f : FindFlags) (r : DirRsb)
    → t.keep ≡ none
    → IsUsable (nodir_toss t from f r)
unfolding nodir_toss
nodir_toss-IsUsable t from f r k =
    rw (insert_keep-absent (mend_nodir t f r) (record t { toss = none }) k) (
      if-IsUsable _ _
        (not f.recover && not (r.master_nodeid == t.env.our_nodeid) && not (from == 0))
        (λ _.
          failed t Errno.enotblk (ap (λ (o : Option DirRsb). is_some o && is_some t.toss) k) refl)
        (λ _. record { finished = refl; apart = refl; in_use = λ _. refl }))

nodir_new-IsUsable :
    (retry : RsbTable → Found) (t : RsbTable)
    → t.keep ≡ none
    → t.toss ≡ none
    → is_success (get_rsb_struct t).1 ≡ true
    → IsUsable (nodir_new retry t)
unfolding nodir_new
nodir_new-IsUsable retry t k e got = rw (insert_keep-absent (nodir_rsb t.env) u (q.keep ∙ k)) (
    if-IsUsable _ _ (not (is_success (get_rsb_struct t).1))
      (λ bad. absurd (ground (arith, bad, got)))
      (λ _. record { finished = refl; apart = ap is_some (q.toss ∙ e); in_use = λ _. refl }))
  where
    u : RsbTable
    u = (get_rsb_struct t).0

    q : SameTrees t u
    q = get_rsb_struct-SameTrees t

find_rsb_nodir-IsUsable :
    (fuel : ℕ) (s : RsbTable) (from : ℕ) (f : FindFlags)
    → IsApart s
    → IsUsable (find_rsb_nodir (suc fuel) from f s)
unfolding find_rsb_nodir
find_rsb_nodir-IsUsable fuel s from f a =
    if-IsUsable _ _ (not (is_success (pre_rsb_struct s).1))
      (λ bad. failed t (pre_rsb_struct s).1 apart (ground (arith, bad)))
      λ ok.
        trees-IsUsable t.keep t.toss _ _ _
          (λ r e. record { finished = refl; apart = ground (arith, apart, e); in_use = λ _. refl })
          (λ r k e. nodir_toss-IsUsable t from f r k)
          λ k e.
            nodir_new-IsUsable (find_rsb_nodir fuel from f) t k e (stocked s (ground (arith, ok)))
  where
    t : RsbTable
    t = (pre_rsb_struct s).0

    q : SameTrees s t
    q = pre_rsb_struct-SameTrees s

    apart : IsApart t
    apart = rw (q.keep, q.toss) a

-- If the name is not in both trees, find_rsb ends in the first turn of its retry loop, the name
-- is not in both trees, and if there is no error the resource is in the keep tree.
pub find_rsb-IsUsable :
    (fuel : ℕ) (t : RsbTable) (from len : ℕ) (f : FindFlags)
    → IsApart t
    → IsUsable (find_rsb (suc fuel) t from len f)
unfolding find_rsb
find_rsb-IsUsable fuel t from len f a =
    if-IsUsable _ _ (ltb dlm_resname_maxlen len) (λ _. failed t Errno.einval a refl)
      λ _.
        if-IsUsable _ _ t.env.no_directory (λ _. find_rsb_nodir-IsUsable fuel t from f a)
          (λ _. find_loop-IsUsable fuel t from f a)
