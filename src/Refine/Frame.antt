-- ===== src/Refine/Frame.antt =====
-- What moving a lock between queues leaves alone, and where the lock stands then.
use lockify.Base.{
  ℕ, ◌≡◌, refl, ◌∙◌, Bool, false, ◌||◌, elem, arith, if◌then◌else◌, ◌==◌, elem-list_del, update,
}
use lockify.State.Events.{LkSts}
use lockify.State.{State, Lkb, Rsb}
use lockify.State.Set.{add_ref, drop_ref, set_status}
use lockify.Queue.{enqueue, unqueue, add_lkb, del_lkb, move_lkb}
use lockify.Queue.Members.{elem-lkb_add_ordered, elem-list_add_at}

-- The modes of each lock, and its EXPEDITE flag, are those it had.
pub record Keeps (f g : ℕ → Lkb) : Type 0 where
  pub gr : (j : ℕ) → (g j).grmode ≡ (f j).grmode
  pub rq : (j : ℕ) → (g j).rqmode ≡ (f j).rqmode
  pub fl : (j : ℕ) → (g j).exflags.expedite ≡ (f j).exflags.expedite

pub Keeps-refl : (f : ℕ → Lkb) → Keeps f f
Keeps-refl f = record { gr = λ j. refl; rq = λ j. refl; fl = λ j. refl }

pub Keeps-trans : {f g h : ℕ → Lkb} → Keeps f g → Keeps g h → Keeps f h
Keeps-trans a b = record {
  gr = λ j. b.gr j ∙ a.gr j;
  rq = λ j. b.rq j ∙ a.rq j;
  fl = λ j. b.fl j ∙ a.fl j;
}

pub update_field :
    {A : Type 0} (p : Lkb → A) (f : ℕ → Lkb) (i : ℕ) (l : Lkb)
    → p l ≡ p (f i)
    → (j : ℕ) → p (update f i l j) ≡ p (f j)
update_field p f i l e j = ground arith

pub update-Keeps :
    (f : ℕ → Lkb) (i : ℕ) (l : Lkb)
    → l.grmode ≡ (f i).grmode
    → l.rqmode ≡ (f i).rqmode
    → l.exflags.expedite ≡ (f i).exflags.expedite
    → Keeps f (update f i l)
update-Keeps f i l g r x = record {
  gr = update_field (λ l. l.grmode) f i l g;
  rq = update_field (λ l. l.rqmode) f i l r;
  fl = update_field (λ l. l.exflags.expedite) f i l x;
}

-- The queue that each lock believes to stand on is the same too.
pub record Still (f g : ℕ → Lkb) : Type 0 where
  pub keeps : Keeps f g
  pub status : (j : ℕ) → (g j).status ≡ (f j).status

pub Still-refl : (f : ℕ → Lkb) → Still f f
Still-refl f = record { keeps = Keeps-refl f; status = λ j. refl }

pub Still-trans : {f g h : ℕ → Lkb} → Still f g → Still g h → Still f h
Still-trans a b = record {
  keeps = Keeps-trans a.keeps b.keeps;
  status = λ j. b.status j ∙ a.status j;
}

pub update-Still :
    (f : ℕ → Lkb) (i : ℕ) (l : Lkb)
    → l.grmode ≡ (f i).grmode
    → l.rqmode ≡ (f i).rqmode
    → l.exflags.expedite ≡ (f i).exflags.expedite
    → l.status ≡ (f i).status
    → Still f (update f i l)
update-Still f i l g r x t = record {
  keeps = update-Keeps f i l g r x;
  status = update_field (λ l. l.status) f i l t;
}

pub hold-Still : (f : ℕ → Lkb) (i : ℕ) → Still f (update f i (add_ref (f i)))
unfolding add_ref
hold-Still f i = update-Still f i _ refl refl refl refl

pub unhold-Still : (f : ℕ → Lkb) (i : ℕ) → Still f (update f i (drop_ref (f i)))
unfolding drop_ref
unhold-Still f i = update-Still f i _ refl refl refl refl

pub hold-Keeps : (f : ℕ → Lkb) (i : ℕ) → Keeps f (update f i (add_ref (f i)))
unfolding add_ref
hold-Keeps f i = update-Keeps f i _ refl refl refl

pub unhold-Keeps : (f : ℕ → Lkb) (i : ℕ) → Keeps f (update f i (drop_ref (f i)))
unfolding drop_ref
unhold-Keeps f i = update-Keeps f i _ refl refl refl

set_status-Keeps : (f : ℕ → Lkb) (i : ℕ) (sts : LkSts) → Keeps f (update f i (set_status sts (f i)))
unfolding set_status
set_status-Keeps f i sts = update-Keeps f i _ refl refl refl

enqueue-lkbs : (s : State) (i : ℕ) (sts : LkSts) → (enqueue s i sts).lkbs ≡ s.lkbs
unfolding enqueue
enqueue-lkbs s i LkSts.off = refl
enqueue-lkbs s i sts = refl

enqueue-Keeps :
    (s : State) (i : ℕ) (sts : LkSts) {f : ℕ → Lkb}
    → Keeps f s.lkbs
    → Keeps f (enqueue s i sts).lkbs
unfolding enqueue
enqueue-Keeps s i LkSts.off k = k
enqueue-Keeps s i sts k = k

pub add_lkb-Keeps : (s : State) (i : ℕ) (sts : LkSts) → Keeps s.lkbs (add_lkb s i sts).lkbs
unfolding add_lkb
add_lkb-Keeps s i sts =
    enqueue-Keeps _ i sts (Keeps-trans (hold-Keeps s.lkbs i) (set_status-Keeps _ i sts))

pub del_lkb-Keeps : (s : State) (i : ℕ) → Keeps s.lkbs (del_lkb s i).lkbs
unfolding del_lkb unqueue
del_lkb-Keeps s i = Keeps-trans (set_status-Keeps s.lkbs i LkSts.off) (unhold-Keeps _ i)

pub move_lkb-Keeps : (s : State) (i : ℕ) (sts : LkSts) → Keeps s.lkbs (move_lkb s i sts).lkbs
unfolding move_lkb
move_lkb-Keeps s i sts =
    Keeps-trans (hold-Keeps s.lkbs i)
      (Keeps-trans (del_lkb-Keeps _ i) (Keeps-trans (add_lkb-Keeps _ i sts) (unhold-Keeps _ i)))

-- Lock `j` stands on the grant queue or the convert queue, where `queue_conflict` looks.
abbrev pub is_listed : Rsb → ℕ → Bool
is_listed r j = elem j r.grantqueue || elem j r.convertqueue

pub del_lkb-is_listed :
    (s : State) (i j : ℕ)
    → is_listed (del_lkb s i).rsb j ≡ (if i == j then false else is_listed s.rsb j)
unfolding del_lkb unqueue
del_lkb-is_listed s i j =
    ground (arith, elem-list_del i j s.rsb.grantqueue, elem-list_del i j s.rsb.convertqueue)

enqueue-granted-is_listed :
    (s : State) (i j : ℕ)
    → is_listed (enqueue s i LkSts.granted).rsb j ≡ ((i == j) || is_listed s.rsb j)
unfolding enqueue
enqueue-granted-is_listed s i j =
    ground (arith, elem-lkb_add_ordered s.lkbs i j (s.lkbs i).grmode s.rsb.grantqueue)

enqueue-convert-is_listed :
    (s : State) (i j : ℕ)
    → is_listed (enqueue s i LkSts.convert).rsb j ≡ ((i == j) || is_listed s.rsb j)
unfolding enqueue
enqueue-convert-is_listed s i j =
    ground (arith, elem-list_add_at (s.lkbs i).exflags.headque i j s.rsb.convertqueue)

pub add_lkb-granted-is_listed :
    (s : State) (i j : ℕ)
    → is_listed (add_lkb s i LkSts.granted).rsb j ≡ ((i == j) || is_listed s.rsb j)
unfolding add_lkb
add_lkb-granted-is_listed s i j = enqueue-granted-is_listed _ i j

pub add_lkb-convert-is_listed :
    (s : State) (i j : ℕ)
    → is_listed (add_lkb s i LkSts.convert).rsb j ≡ ((i == j) || is_listed s.rsb j)
unfolding add_lkb
add_lkb-convert-is_listed s i j = enqueue-convert-is_listed _ i j

pub add_lkb-waiting-grantqueue :
    (s : State) (i : ℕ) → (add_lkb s i LkSts.waiting).rsb.grantqueue ≡ s.rsb.grantqueue
unfolding add_lkb enqueue
add_lkb-waiting-grantqueue s i = refl

pub add_lkb-waiting-convertqueue :
    (s : State) (i : ℕ) → (add_lkb s i LkSts.waiting).rsb.convertqueue ≡ s.rsb.convertqueue
unfolding add_lkb enqueue
add_lkb-waiting-convertqueue s i = refl

pub move_lkb-granted-is_listed :
    (s : State) (i j : ℕ)
    → is_listed (move_lkb s i LkSts.granted).rsb j ≡ ((i == j) || is_listed s.rsb j)
unfolding move_lkb
move_lkb-granted-is_listed s i j = grounded _
  where
    grounded :
        (t : State)
        → is_listed (add_lkb (del_lkb t i) i LkSts.granted).rsb j ≡ ((i == j) || is_listed t.rsb j)
    grounded t =
        ground (arith, add_lkb-granted-is_listed (del_lkb t i) i j, del_lkb-is_listed t i j)
