-- ===== src/Pending/Sent.antt =====
-- The callbacks that send_blocking_asts makes: fs/dlm/lock.c 2458-2497, 333-347 and 3565-3582.
use lockify.Base.{
  ℕ, ◌≡◌, refl, subst, ap, ◌∙◌, Bool, true, false, not, ◌&&◌, ◌||◌, if◌then◌else◌, arith, elem,
  elem-cons, ◌==◌, ==-refl, ==_iff, List, [], ◌∷◌, Bool-cases, inl, inr, ◌⊎◌,
}
use lockify.Modes.{Mode, iv, ex, mode_lt, mode_eq, modes_compat}
use lockify.State.Events.{NodeId, node_eq, MsgType, bast, Message, Callback}
use lockify.State.{State, Lkb, Env, modify}
use lockify.State.Set.{set_highbast}
use lockify.Wire.{queue_bast, send_bast, send_args}
use lockify.Pending.{walk, bast_one, modes_require_bast, send_bast_queue, send_blocking_asts}
use lockify.Pending.Told.{
  bast_written, IsTold, Blocks, bast_one-lkbs, written-Blocks, send_blocking_asts-IsTold,
}

abbrev is_bast : MsgType → Bool
is_bast bast = true
is_bast _ = false

-- A blocking callback for the mode is on its way to the node that holds the lock.
pub in_messages : Lkb → ℕ → Mode → List Message → Bool
in_messages l j m [] = false
in_messages l j m (ms ∷ rest) =
    (is_bast ms.m_type && ms.m_lkid == j && node_eq ms.m_to l.nodeid && mode_eq ms.m_bastmode m)
    || in_messages l j m rest

abbrev is_callback : ℕ → Mode → Callback → Bool
is_callback j m (Callback.basted k n) = k == j && mode_eq n m
is_callback j m _ = false

-- The user of the lock is called back for the mode.
pub in_callbacks : ℕ → Mode → List Callback → Bool
in_callbacks j m [] = false
in_callbacks j m (cb ∷ rest) = is_callback j m cb || in_callbacks j m rest

-- A master copy is told by a message to its node, any other lock by a call of its function.
abbrev pub is_sent : State → ℕ → Mode → Bool
is_sent s j m =
    if (s.lkbs j).mstcpy then in_messages (s.lkbs j) j m s.sent else in_callbacks j m s.callbacks

node_eq_self : (n : NodeId) → node_eq n n ≡ true
node_eq_self NodeId.unset = refl
node_eq_self (NodeId.node n) = ==-refl n

mode_eq_self : (m : Mode) → mode_eq m m ≡ true
mode_eq_self iv = refl
mode_eq_self _ = refl

queue_bast-is_sent :
    (s : State) (j : ℕ) (m : Mode)
    → s.env.get_mhandle s.mhandles ≡ true
    → is_sent (queue_bast s j m) j m ≡ true
unfolding queue_bast send_bast send_args in_messages in_callbacks
queue_bast-is_sent s j m g =
    ground (arith, g, ==-refl j, mode_eq_self m, node_eq_self (s.lkbs j).nodeid)

-- What has been sent stays sent.
is_sent-queue_bast :
    (s : State) (j g : ℕ) (m n : Mode)
    → is_sent s j m ≡ true
    → is_sent (queue_bast s g n) j m ≡ true
unfolding queue_bast send_bast send_args in_messages in_callbacks
is_sent-queue_bast s j g m n h = ground (arith, h)

queue_bast-env : (s : State) (g : ℕ) (m : Mode) → (queue_bast s g m).env ≡ s.env
unfolding queue_bast send_bast
queue_bast-env s g m = ground arith

-- The mark of the strongest callback is no news for anyone.
in_messages-set_highbast :
    (l : Lkb) (j : ℕ) (m n : Mode) (q : List Message)
    → in_messages (set_highbast n l) j m q ≡ in_messages l j m q
unfolding set_highbast in_messages
in_messages-set_highbast l j m n [] = refl
in_messages-set_highbast l j m n (ms ∷ q) =
    ap
      (λ (b : Bool).
        (is_bast ms.m_type && ms.m_lkid == j && node_eq ms.m_to l.nodeid && mode_eq ms.m_bastmode m)
        || b)
      (in_messages-set_highbast l j m n q)

modify-is_sent :
    (s : State) (j g : ℕ) (m n : Mode)
    → is_sent s j m ≡ true
    → is_sent (modify s g (set_highbast n)) j m ≡ true
unfolding set_highbast
modify-is_sent s j g m n h = ground (arith, h, in_messages-set_highbast (s.lkbs j) j m n s.sent)

bast_one-env : (s : State) (i g : ℕ) → (bast_one i s g).env ≡ s.env
unfolding bast_one
bast_one-env s i g = pick (g == i) ((s.lkbs g).bastfn && modes_require_bast (s.lkbs g) (s.lkbs i))
  where
    rq : Mode
    rq = (s.lkbs i).rqmode

    pick :
        (b c : Bool)
        → (if b then s else if c then modify (queue_bast s g rq) g (set_highbast rq) else s).env
          ≡ s.env
    pick true c = refl
    pick false true = queue_bast-env s g rq
    pick false false = refl

is_sent-bast_one :
    (s : State) (i j g : ℕ) (m : Mode) → is_sent s j m ≡ true → is_sent (bast_one i s g) j m ≡ true
unfolding bast_one
is_sent-bast_one s i j g m h =
    pick (g == i) ((s.lkbs g).bastfn && modes_require_bast (s.lkbs g) (s.lkbs i))
  where
    rq : Mode
    rq = (s.lkbs i).rqmode

    next : State
    next = modify (queue_bast s g rq) g (set_highbast rq)

    pick : (b c : Bool) → is_sent (if b then s else if c then next else s) j m ≡ true
    pick true c = h
    pick false true = modify-is_sent (queue_bast s g rq) j g m rq (is_sent-queue_bast s j g m rq h)
    pick false false = h

stronger : (a m : Mode) → mode_lt a m ≡ true → mode_lt a ex ≡ true
stronger iv m h = refl
stronger _ iv h = ground (arith, h)
stronger _ _ h = ground (arith, h)

-- A lock in the way that has not been told yet is told.
required :
    (gr rq : Lkb)
    → modes_compat gr.grmode rq.rqmode ≡ false
    → mode_lt gr.highbast rq.rqmode ≡ true
    → modes_require_bast gr rq ≡ true
unfolding modes_require_bast
required gr rq c h = ground (arith, c, h, stronger gr.highbast rq.rqmode)

bast_one-is_sent :
    (s : State) (i j : ℕ)
    → s.env.get_mhandle s.mhandles ≡ true
    → Blocks s.lkbs i j
    → mode_lt (s.lkbs j).highbast (s.lkbs i).rqmode ≡ true
    → is_sent (bast_one i s j) j (s.lkbs i).rqmode ≡ true
unfolding bast_one
bast_one-is_sent s i j g b h =
    pick (j == i) ((s.lkbs j).bastfn && modes_require_bast (s.lkbs j) (s.lkbs i)) b.other
      (ground (arith, b.bastfn, required (s.lkbs j) (s.lkbs i) b.excludes h))
  where
    rq : Mode
    rq = (s.lkbs i).rqmode

    next : State
    next = modify (queue_bast s j rq) j (set_highbast rq)

    pick :
        (x y : Bool)
        → x ≡ false
        → y ≡ true
        → is_sent (if x then s else if y then next else s) j rq ≡ true
    pick false true e f = modify-is_sent (queue_bast s j rq) j j rq rq (queue_bast-is_sent s j rq g)
    pick true y e f = absurd (ground (arith, e))
    pick false false e f = absurd (ground (arith, f))

-- Another lock's turn leaves the lock as it is, and the request too.
written-other :
    (f : ℕ → Lkb) (i j g : ℕ)
    → (g == j) ≡ false
    → mode_lt (f j).highbast (f i).rqmode ≡ true
    → mode_lt (bast_written f i g j).highbast (bast_written f i g i).rqmode ≡ true
unfolding set_highbast
written-other f i j g n h = ground (arith, n, h)

written-rqmode : (f : ℕ → Lkb) (i g : ℕ) → (bast_written f i g i).rqmode ≡ (f i).rqmode
unfolding set_highbast
written-rqmode f i g = ground arith

walk-is_sent :
    (q : List ℕ) (s : State) (i j : ℕ) (m : Mode)
    → ((k : ℕ) → s.env.get_mhandle k ≡ true)
    → Blocks s.lkbs i j
    → (s.lkbs i).rqmode ≡ m
    → (is_sent s j m ≡ true)
      ⊎ ((mode_lt (s.lkbs j).highbast (s.lkbs i).rqmode ≡ true) × (elem j q ≡ true))
    → is_sent (walk (bast_one i) s q) j m ≡ true
unfolding walk elem
walk-is_sent [] s i j m a b e (inl t) = t
walk-is_sent [] s i j m a b e (inr p) = absurd (ground (arith, p.1))
walk-is_sent (g ∷ q) s i j m a b e h =
    walk-is_sent q (bast_one i s g) i j m
      (λ k. ap (λ (v : Env). v.get_mhandle k) (bast_one-env s i g) ∙ a k)
      (rw (bast_one-lkbs s i g) (written-Blocks s.lkbs i j g b))
      (rw (bast_one-lkbs s i g) (written-rqmode s.lkbs i g ∙ e)) (after h (Bool-cases (g == j)))
  where
    after :
        (is_sent s j m ≡ true)
          ⊎ ((mode_lt (s.lkbs j).highbast (s.lkbs i).rqmode ≡ true) × (elem j (g ∷ q) ≡ true))
        → ((g == j) ≡ true) ⊎ ((g == j) ≡ false)
        → (is_sent (bast_one i s g) j m ≡ true)
          ⊎ ((mode_lt (((bast_one i s g).lkbs j).highbast) ((bast_one i s g).lkbs i).rqmode ≡ true)
              × (elem j q ≡ true))
    after (inl t) w = inl (is_sent-bast_one s i j g m t)
    after (inr p) (inl same) = inl (rw ((==_iff g j).0 same) (told p.0))
      where
        told :
            mode_lt (s.lkbs j).highbast (s.lkbs i).rqmode ≡ true
            → is_sent (bast_one i s j) j m ≡ true
        told x =
            subst (λ (n : Mode). is_sent (bast_one i s j) j n ≡ true) e
              (bast_one-is_sent s i j (a s.mhandles) b x)
    after (inr p) (inr ne) = inr (
      rw (bast_one-lkbs s i g) (written-other s.lkbs i j g ne p.0),
      ground (arith, elem-cons j g q, p.1, ne),
    )

news :
    (s : State) (i j : ℕ)
    → ((k : ℕ) → s.env.get_mhandle k ≡ true)
    → Blocks s.lkbs i j
    → elem j s.rsb.grantqueue ≡ true
    → mode_lt (s.lkbs j).highbast (s.lkbs i).rqmode ≡ true
    → is_sent (send_blocking_asts s i) j (s.lkbs i).rqmode ≡ true
unfolding send_blocking_asts send_bast_queue
news s i j a b e h = walk-is_sent s.rsb.grantqueue s i j (s.lkbs i).rqmode a b refl (inr (h, e))

-- If there is always a message handle, then after send_blocking_asts for a lock, each other
-- lock of the grant queue that has a blocking function and holds a mode that excludes what is
-- asked for is marked as told of that mode or a stronger one; and if it was marked for a weaker
-- one before, a blocking callback for that mode has been made: a message to its node if it is
-- the copy of another node's lock, and otherwise a call of its function.
pub send_blocking_asts-is_sent :
    (s : State) (i j : ℕ)
    → ((k : ℕ) → s.env.get_mhandle k ≡ true)
    → Blocks s.lkbs i j
    → elem j s.rsb.grantqueue ≡ true
    → IsTold (send_blocking_asts s i).lkbs i j
      × ((not (mode_lt (s.lkbs j).highbast (s.lkbs i).rqmode)
            || is_sent (send_blocking_asts s i) j (s.lkbs i).rqmode)
          ≡ true)
send_blocking_asts-is_sent s i j a b e =
    (send_blocking_asts-IsTold s i j b e, ground (arith, news s i j a b e))
