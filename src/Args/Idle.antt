-- ===== src/Args/Idle.antt =====
-- A lock that asks for no mode, while nobody waits: fs/dlm/lock.c 1912-1999 and 1344-1409.
use lockify.Base.{
  ℕ, ◌≡◌, refl, ap, ◌∙◌, Bool, true, false, List, [], ◌∷◌, if◌then◌else◌, ==-refl, list_del, arith,
}
use lockify.Modes.{Mode, iv, mode_eq, lvb_operation, LvbOp}
use lockify.Modes.Compat.{modes_compat-iv}
use lockify.State.Events.{LkSts, is_off}
use lockify.State.{State, Lkb, modify}
use lockify.State.Set.{
  hold_lkb, unhold_lkb, set_status, set_grmode, clear_request, add_ref, drop_ref,
}
use lockify.Queue.{add_lkb, del_lkb, move_lkb, enqueue, unqueue, queue_conflict}
use lockify.Grant.{grantable, grant_held}

-- A lock that asks for no mode is in nobody's way.
no_conflict :
    (lkbs : ℕ → Lkb) (q : List ℕ) (i : ℕ) → (lkbs i).rqmode ≡ iv → queue_conflict lkbs q i ≡ false
unfolding queue_conflict
no_conflict lkbs [] i e = refl
no_conflict lkbs (j ∷ q) i e =
    ground (arith, e, no_conflict lkbs q i, modes_compat-iv (lkbs j).grmode)

pub asks_nothing-grantable :
    (s : State) (i : ℕ)
    → (s.lkbs i).rqmode ≡ iv
    → mode_eq (s.lkbs i).grmode iv ≡ false
    → (s.lkbs i).exflags.quecvt ≡ false
    → grantable s i true false ≡ true
unfolding grantable
asks_nothing-grantable s i e h q =
    ground (
      arith,
      e,
      h,
      q,
      no_conflict s.lkbs s.rsb.grantqueue i,
      no_conflict s.lkbs s.rsb.convertqueue i,
    )

pub no_lvb : (gr : Mode) → lvb_operation gr iv ≡ LvbOp.nothing
unfolding lvb_operation
no_lvb iv = refl
no_lvb _ = refl

-- Nobody waits on the master's queues.
pub record IsIdle (s : State) : Type 0 where
  pub converting : s.rsb.convertqueue ≡ []
  pub waiting : s.rsb.waitqueue ≡ []

-- What is written on the way to the grant queue.
pub record Moved (s t : State) (i : ℕ) : Type 0 where
  pub grmode : (t.lkbs i).grmode ≡ (s.lkbs i).grmode
  pub idle : IsIdle s → IsIdle t
  pub res_nodeid : t.rsb.res_nodeid ≡ s.rsb.res_nodeid

add_lkb-Moved : (s : State) (i : ℕ) → Moved s (add_lkb s i LkSts.granted) i
unfolding add_lkb enqueue set_status add_ref
add_lkb-Moved s i = record {
  grmode = ground (arith, ==-refl i);
  idle = λ v. record { converting = v.converting; waiting = v.waiting };
  res_nodeid = refl;
}

del_lkb-Moved : (s : State) (i : ℕ) → Moved s (del_lkb s i) i
unfolding del_lkb unqueue set_status drop_ref list_del
del_lkb-Moved s i = record {
  grmode = ground (arith, ==-refl i);
  idle = λ v. record {
    converting = ap (list_del i) v.converting;
    waiting = ap (list_del i) v.waiting;
  };
  res_nodeid = refl;
}

modify-Moved :
    (s : State) (i : ℕ) (f : Lkb → Lkb)
    → (f (s.lkbs i)).grmode ≡ (s.lkbs i).grmode
    → Moved s (modify s i f) i
modify-Moved s i f e = record {
  grmode = ground (arith, ==-refl i, e);
  idle = λ v. record { converting = v.converting; waiting = v.waiting };
  res_nodeid = refl;
}

Moved-trans : {s t u : State} {i : ℕ} → Moved s t i → Moved t u i → Moved s u i
Moved-trans a b = record {
  grmode = b.grmode ∙ a.grmode;
  idle = λ v. b.idle (a.idle v);
  res_nodeid = b.res_nodeid ∙ a.res_nodeid;
}

unhold_lkb-Moved : (s : State) (i : ℕ) → Moved s (unhold_lkb s i) i
unfolding drop_ref
unhold_lkb-Moved s i = record {
  grmode = ground (arith, ==-refl i);
  idle = λ v. record { converting = v.converting; waiting = v.waiting };
  res_nodeid = refl;
}

move_lkb-Moved : (s : State) (i : ℕ) → Moved s (move_lkb s i LkSts.granted) i
unfolding move_lkb add_ref
move_lkb-Moved s i =
    let held = hold_lkb s i in
    let gone = del_lkb held i in
    let back = add_lkb gone i LkSts.granted in
    Moved-trans (modify-Moved s i add_ref refl) (
      Moved-trans (del_lkb-Moved held i)
        (Moved-trans (add_lkb-Moved gone i) (unhold_lkb-Moved back i)))

choose-Moved :
    (s x y : State) (i : ℕ) (b : Bool) → Moved s x i → Moved s y i → Moved s (if b then x else y) i
choose-Moved s x y i true f g = f
choose-Moved s x y i false f g = g

-- The lock holds nothing any more, and nobody waits.
pub record Emptied (t : State) (i : ℕ) : Type 0 where
  pub grmode : (t.lkbs i).grmode ≡ iv
  pub idle : IsIdle t

pub Moved-Emptied : {s t : State} {i : ℕ} → Moved s t i → Emptied s i → Emptied t i
Moved-Emptied m e = record { grmode = m.grmode ∙ e.grmode; idle = m.idle e.idle }

pub grant_held-Emptied :
    (s : State) (i : ℕ)
    → (s.lkbs i).rqmode ≡ iv
    → mode_eq (s.lkbs i).grmode iv ≡ false
    → IsIdle s
    → Emptied (grant_held s i) i
unfolding grant_held clear_request set_grmode
grant_held-Emptied s i e h v = Moved-Emptied (modify-Moved queued i clear_request refl) (
    pick (mode_eq (s.lkbs i).grmode (s.lkbs i).rqmode) (is_off (s.lkbs i).status)
      (ground (arith, e, h)))
  where
    t : State
    t = modify s i (set_grmode (s.lkbs i).rqmode)

    queued : State
    queued =
        if mode_eq (s.lkbs i).grmode (s.lkbs i).rqmode
        then s
        else if is_off (s.lkbs i).status
        then add_lkb t i LkSts.granted
        else move_lkb t i LkSts.granted

    start : Emptied t i
    start = record {
      grmode = ground (arith, ==-refl i, e);
      idle = record { converting = v.converting; waiting = v.waiting };
    }

    pick :
        (b c : Bool)
        → b ≡ false
        → Emptied
            (if b then s else if c then add_lkb t i LkSts.granted else move_lkb t i LkSts.granted)
            i
    pick true c x = absurd (ground (arith, x))
    pick false true x = Moved-Emptied (add_lkb-Moved t i) start
    pick false false x = Moved-Emptied (move_lkb-Moved t i) start
