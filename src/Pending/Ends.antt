-- ===== src/Pending/Ends.antt =====
-- `grant_pending_convert`, fs/dlm/lock.c 2314-2381, comes to an end: each pass that restarts
-- leaves less to grant, but for the one restart after a demotion.
use lockify.Base.{
  one_if, ℕ, ◌+◌, ◌≤◌, ◌≡◌, refl, ◌∙◌, Bool, true, false, if◌then◌else◌, elem, list_del,
  elem-list_del, arith, update, sym, ◌≢◌, Bool-cases, inl, inr, ==-ne, ==-refl, ap,
}
use lockify.Modes.{Mode, iv, mode_eq}
use lockify.State.Events.{LkSts, is_off, success}
use lockify.State.{State, Lkb, modify}
use lockify.State.Set.{clear_request, set_grmode}
use lockify.Queue.{add_lkb, del_lkb, move_lkb, enqueue, unqueue}
use lockify.Wire.{send_grant, queue_cast}
use lockify.Lvb.{set_lvb_lock}
use lockify.Grant.{grant_held, grant_lock, grant_lock_pending}
use lockify.Pending.Measure.{
  weigh, weigh-same, weigh-list_del, weigh-cleared, Distinct, list_del-Distinct,
}
use lockify.Refine.Quiet.{Quiet, set_lvb_lock-Quiet, send_grant-Quiet, queue_cast-Quiet}

-- The convert queue names locks that hold a mode and know that they are queued, each once.
pub record IsBusy (s : State) : Type 0 where
  pub holding : (j : ℕ) → elem j s.rsb.convertqueue ≡ true → mode_eq (s.lkbs j).grmode iv ≡ false
  pub queued : (j : ℕ) → elem j s.rsb.convertqueue ≡ true → is_off (s.lkbs j).status ≡ false
  pub distinct : Distinct s.rsb.convertqueue

-- What is left to grant.
abbrev pub left : State → ℕ
left s = weigh s.lkbs s.rsb.convertqueue

-- A step for lock `i`. `did` says that the lock was granted; if not, the queue has the same locks.
pub record Progress (s : State) (i : ℕ) (t : State) (did : Bool) : Type 0 where
  pub busy : IsBusy t
  pub less : left t + one_if did ≤ left s
  pub others :
      (j : ℕ) → (did ≡ true → i ≢ j) → elem j t.rsb.convertqueue ≡ elem j s.rsb.convertqueue

Quiet-IsBusy : {s t : State} → Quiet s t → IsBusy s → IsBusy t
Quiet-IsBusy q b = record {
  holding = λ j h. ground (arith, q.still.keeps.gr j, q.converting, b.holding j);
  queued = λ j h. ground (arith, q.still.status j, q.converting, b.queued j);
  distinct = rw q.converting b.distinct;
}

Quiet-left : {s t : State} → Quiet s t → left t ≡ left s
Quiet-left {s} {t} q =
    rw q.converting (weigh-same s.lkbs t.lkbs s.rsb.convertqueue q.still.keeps.rq)

-- `move_lkb` to the grant queue.
move-convertqueue :
    (s : State) (i : ℕ)
    → (move_lkb s i LkSts.granted).rsb.convertqueue ≡ list_del i s.rsb.convertqueue
unfolding move_lkb add_lkb del_lkb enqueue unqueue
move-convertqueue s i = refl

move-others : (s : State) (i j : ℕ) → i ≢ j → (move_lkb s i LkSts.granted).lkbs j ≡ s.lkbs j
unfolding move_lkb add_lkb del_lkb enqueue unqueue
move-others s i j ne = rw (==-ne i j ne) refl

-- `_grant_lock` with another mode: the lock leaves the convert queue.
moved-Progress :
    (s : State) (i : ℕ) (m : Mode)
    → IsBusy s
    → elem i s.rsb.convertqueue ≡ true
    → Progress s i
        (modify (move_lkb (modify s i (set_grmode m)) i LkSts.granted) i clear_request)
        true
moved-Progress s i m b on = record {
  busy = record {
    holding = λ j h. rw (same j (not_self j h)) (b.holding j (sym (others j (not_self j h)) ∙ h));
    queued = λ j h. rw (same j (not_self j h)) (b.queued j (sym (others j (not_self j h)) ∙ h));
    distinct = rw q (list_del-Distinct i s.rsb.convertqueue b.distinct);
  };
  less = ground (
    arith,
    q,
    weigh-list_del s.lkbs (update t.lkbs i (clear_request (t.lkbs i))) i s.rsb.convertqueue
        (λ j ne. ap (λ (l : Lkb). l.rqmode) (same j ne)),
  );
  others = λ j ne. others j (ne refl);
}
  where
    t : State
    t = move_lkb (modify s i (set_grmode m)) i LkSts.granted

    q : t.rsb.convertqueue ≡ list_del i s.rsb.convertqueue
    q = move-convertqueue (modify s i (set_grmode m)) i

    gone : elem i t.rsb.convertqueue ≡ false
    gone = ground (arith, q, elem-list_del i i s.rsb.convertqueue)

    others : (j : ℕ) → i ≢ j → elem j t.rsb.convertqueue ≡ elem j s.rsb.convertqueue
    others j ne = ground (arith, q, elem-list_del i j s.rsb.convertqueue)

    not_self : (j : ℕ) → elem j t.rsb.convertqueue ≡ true → i ≢ j
    not_self j h e = cc gone

    same : (j : ℕ) → i ≢ j → update t.lkbs i (clear_request (t.lkbs i)) j ≡ s.lkbs j
    same j ne = rw (==-ne i j ne, move-others (modify s i (set_grmode m)) i j ne, ==-ne i j ne) refl

-- With the mode that it has: the lock stays, and its request is done.
settled-Progress :
    (s : State) (i : ℕ)
    → IsBusy s
    → elem i s.rsb.convertqueue ≡ true
    → mode_eq (s.lkbs i).grmode (s.lkbs i).rqmode ≡ true
    → Progress s i (modify s i clear_request) true
unfolding clear_request
settled-Progress s i b on eq = record {
  busy = record {
    holding = λ j h. ground (arith, b.holding j);
    queued = λ j h. ground (arith, b.queued j);
    distinct = b.distinct;
  };
  less = ground (
    arith,
    weigh-cleared s.lkbs (update s.lkbs i (clear_request (s.lkbs i))) i s.rsb.convertqueue
        (λ j ne. rw (==-ne i j ne) refl) (ground (arith, b.holding i on)) (rw (==-refl i) refl),
  );
  others = λ j ne. refl;
}

grant_held-Progress :
    (s : State) (i : ℕ)
    → IsBusy s
    → elem i s.rsb.convertqueue ≡ true
    → Progress s i (grant_held s i) true
unfolding grant_held
grant_held-Progress s i b on = elim (Bool-cases (mode_eq (s.lkbs i).grmode (s.lkbs i).rqmode)) [
  | inl eq ↦ rw (eq, grant_held) (settled-Progress s i b on eq)
  | inr ne ↦ rw (ne, b.queued i on, grant_held) (moved-Progress s i (s.lkbs i).rqmode b on)
]

-- Quiet steps before and after.
Progress-Quiet :
    {s t : State} (i : ℕ) (u : State) (did : Bool)
    → Quiet s t
    → Progress t i u did
    → Progress s i u did
Progress-Quiet {s} {t} i u did q p = record {
  busy = p.busy;
  less = omega (arith, p.less, Quiet-left {s = s} {t = t} q);
  others = λ j ne. p.others j ne ∙ ap (elem j) q.converting;
}

pub Quiet-Progress :
    {s t u : State} (i : ℕ) (did : Bool) → Progress s i t did → Quiet t u → Progress s i u did
Quiet-Progress {s} {t} {u} i did p q = record {
  busy = Quiet-IsBusy q p.busy;
  less = omega (arith, p.less, Quiet-left {s = t} {t = u} q);
  others = λ j ne. ap (elem j) q.converting ∙ p.others j ne;
}

pub no-Progress : {s t : State} (i : ℕ) → Quiet s t → IsBusy s → Progress s i t false
no-Progress {s} {t} i q b = record {
  busy = Quiet-IsBusy q b;
  less = omega (arith, Quiet-left {s = s} {t = t} q);
  others = λ j ne. ap (elem j) q.converting;
}

pub grant_lock_pending-Progress :
    (s : State) (i : ℕ)
    → IsBusy s
    → elem i s.rsb.convertqueue ≡ true
    → Progress s i (grant_lock_pending s i) true
unfolding grant_lock_pending grant_lock
grant_lock_pending-Progress s i b on = after ((grant_lock s i).lkbs i).mstcpy
  where
    q : Quiet s (set_lvb_lock s i)
    q = set_lvb_lock-Quiet s i

    p : Progress s i (grant_lock s i) true
    p = Progress-Quiet {s = s} {t = set_lvb_lock s i} i (grant_lock s i) true q (
        grant_held-Progress (set_lvb_lock s i) i (Quiet-IsBusy q b) (ap (elem i) q.converting ∙ on))

    after :
        (m : Bool)
        → Progress s i
            (if m then send_grant (grant_lock s i) i else queue_cast (grant_lock s i) i success)
            true
    after true = Quiet-Progress i true p (send_grant-Quiet _ i)
    after false = Quiet-Progress i true p (queue_cast-Quiet _ i success)
