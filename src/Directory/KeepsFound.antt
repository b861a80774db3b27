-- ===== src/Directory/KeepsFound.antt =====
-- find_rsb and put_rsb keep the record of a name: fs/dlm/lock.c 541-720 and 1141-1156.
use lockify.Base.{
  ℕ, zero, suc, ◌+◌, ◌-◌, ◌≡◌, refl, Bool, true, not, ◌&&◌, Option, none, some, if◌then◌else◌, ◌==◌,
  arith,
}
use lockify.State.Events.{Errno, success, is_success}
use lockify.Directory.{DirRsb, RsbTable, insert_toss}
use lockify.Directory.Master.{SameTrees}
use lockify.Directory.Find.{
  FindFlags, Found, found, find_rsb, find_loop, from_toss, mend, take_ref, from_other, create,
  drop_rsb,
}
use lockify.Directory.Agree.{insert_toss-absent}
use lockify.Directory.Find.Apart.{insert_keep-absent, prepare, prepare-SameTrees}
use lockify.Directory.Keeps.{
  is_of, is_kept, is_recorded, choose-kept, trees-kept, same-is_recorded, keep-is_recorded,
  move-is_recorded,
}

-- A resource that another node masters stays its master's, unless this node asks itself for it.
mended :
    (m : ℕ) (t : RsbTable) (from : ℕ) (f : FindFlags) (r : DirRsb)
    → is_recorded m t ≡ true
    → is_of m t.env.our_nodeid r ≡ true
    → not (f.receive_request && from == t.env.our_nodeid) ≡ true
    → is_of m t.env.our_nodeid (mend t from f r) ≡ true
unfolding mend
mended m t from f r h o l = ground (arith, h, o, l)

kept-toss :
    (m our : ℕ) (keep toss : Option DirRsb) (r : DirRsb)
    → keep ≡ some r
    → is_kept m our keep toss ≡ true
    → toss ≡ none
kept-toss m our keep none r e h = refl
kept-toss m our keep (some x) r e h = absurd (ground (arith, e, h))

kept-is_of :
    (m our : ℕ) (keep toss : Option DirRsb) (r : DirRsb)
    → keep ≡ some r
    → is_kept m our keep toss ≡ true
    → is_of m our r ≡ true
kept-is_of m our keep none r e h = ground (arith, e, h)
kept-is_of m our keep (some x) r e h = absurd (ground (arith, e, h))

from_toss-is_recorded :
    (m : ℕ) (t : RsbTable) (from : ℕ) (f : FindFlags) (r : DirRsb)
    → is_recorded m t ≡ true
    → t.keep ≡ none
    → is_of m t.env.our_nodeid r ≡ true
    → not (f.receive_request && from == t.env.our_nodeid) ≡ true
    → is_recorded m (from_toss t from f r).after ≡ true
unfolding from_toss
from_toss-is_recorded m t from f r h k o l =
    rw (insert_keep-absent (mend t from f r) (record t { toss = none }) k) (
      choose-kept (λ (x : Found). is_recorded m x.after) (found t Errno.enotblk)
        (found (record t { keep = some (mend t from f r); toss = none }) success)
        (not (r.master_nodeid == t.env.our_nodeid) && from_other t from f) (λ _. h)
        (λ _. (move-is_recorded m t (mend t from f r) h (mend-is_of)).0))
  where
    mend-is_of : is_of m t.env.our_nodeid (mend t from f r) ≡ true
    mend-is_of = mended m t from f r h o l

find_loop-is_recorded :
    (m fuel from : ℕ) (f : FindFlags) (s : RsbTable)
    → not (f.receive_request && from == s.env.our_nodeid) ≡ true
    → is_recorded m s ≡ true
    → is_recorded m (find_loop fuel from f s).after ≡ true
unfolding find_loop take_ref
find_loop-is_recorded m zero from f s l h = h
find_loop-is_recorded m (suc fuel) from f s l h =
    choose-kept (λ (x : Found). is_recorded m x.after) (found t (prepare s c).1) _
      (not (is_success (prepare s c).1)) (λ _. recorded)
      λ _.
        trees-kept (λ (x : Found). is_recorded m x.after) m t.env.our_nodeid t.keep t.toss _ _ _
          (ground (arith, recorded))
          (λ r k e o. keep-is_recorded m t (record r { ref = r.ref + 1 }) recorded e o)
          (λ r k e o. from_toss-is_recorded m t from f r recorded k o (rw q.env l))
  where
    c : Bool
    c = create s from f

    t : RsbTable
    t = (prepare s c).0

    q : SameTrees s t
    q = prepare-SameTrees s c

    recorded : is_recorded m t ≡ true
    recorded = same-is_recorded m s t q h

pub find-is_recorded :
    (m fuel : ℕ) (t : RsbTable) (from len : ℕ) (f : FindFlags)
    → not (f.receive_request && from == t.env.our_nodeid) ≡ true
    → is_recorded m t ≡ true
    → is_recorded m (find_rsb fuel t from len f).after ≡ true
unfolding find_rsb
find-is_recorded m fuel t from len f l h =
    ground (arith, h, find_loop-is_recorded m fuel from f t l)

pub drop_rsb-is_recorded :
    (m : ℕ) (t : RsbTable) → is_recorded m t ≡ true → is_recorded m (drop_rsb t) ≡ true
unfolding drop_rsb
drop_rsb-is_recorded m t h = by_tree t.keep refl
  where
    dropped : DirRsb → RsbTable
    dropped r =
        if r.ref == 1
        then (insert_toss (record r { ref = 1 }) (record t { keep = none })).0
        else record t { keep = some (record r { ref = r.ref - 1 }) }

    by_tree :
        (o : Option DirRsb)
        → t.keep ≡ o
        → is_recorded m (elim o as (λ _. RsbTable) [ none ↦ t | some r ↦ dropped r ]) ≡ true
    by_tree none e = h
    by_tree (some r) e =
        choose-kept (is_recorded m)
          (insert_toss (record r { ref = 1 }) (record t { keep = none })).0
          (record t { keep = some (record r { ref = r.ref - 1 }) }) (r.ref == 1)
          (λ _.
            rw (insert_toss-absent (record r { ref = 1 }) (record t { keep = none }) (no_toss r e))
              ((move-is_recorded m t (record r { ref = 1 }) h (is_his r e)).1))
          (λ _. keep-is_recorded m t (record r { ref = r.ref - 1 }) h (no_toss r e) (is_his r e))
      where
        no_toss : (r : DirRsb) → t.keep ≡ some r → t.toss ≡ none
        no_toss r e = kept-toss m t.env.our_nodeid t.keep t.toss r e (ground (arith, h))

        is_his : (r : DirRsb) → t.keep ≡ some r → is_of m t.env.our_nodeid r ≡ true
        is_his r e = kept-is_of m t.env.our_nodeid t.keep t.toss r e (ground (arith, h))
