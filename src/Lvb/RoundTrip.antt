-- ===== src/Lvb/RoundTrip.antt =====
-- The value block travels from one holder to the next: fs/dlm/lock.c 1756-1832.
use lockify.Base.{
  ℕ, zero, suc, ◌+◌, ◌≡◌, refl, sym, ap, ◌∙◌, ◌≢◌, true, false, List, [], ◌∷◌, ◌++◌, Option, none,
  some, take, drop, length, ==-refl, arith,
}
use lockify.Modes.{pw, mode_lt, lvb_operation, LvbOp}
use lockify.State.{State, Env, modify}
use lockify.State.Set.{set_lvb}
use lockify.Lvb.{
  memcpy, set_lvb_lock, set_lvb_unlock, store_lvb, return_lvb, write_lvb, note_valnotvalid,
  lvb_block, count_alloc,
}

take-all : (n : ℕ) (xs ys : List ℕ) → length xs ≡ n → take n (xs ++ ys) ≡ xs
take-all zero [] ys h = refl
take-all (suc n) [] ys h = ground (arith, h)
take-all zero (x ∷ xs) ys h = ground (arith, h)
take-all (suc n) (x ∷ xs) ys h = ap (λ (q : List ℕ). x ∷ q) (take-all n xs ys (omega (arith, h)))

drop-all : (n : ℕ) (xs : List ℕ) → length xs ≡ n → drop n xs ≡ []
drop-all zero [] h = refl
drop-all (suc n) [] h = refl
drop-all zero (x ∷ xs) h = ground (arith, h)
drop-all (suc n) (x ∷ xs) h = drop-all n xs (omega (arith, h))

append_nil : (xs : List ℕ) → xs ++ [] ≡ xs
append_nil [] = refl
append_nil (x ∷ xs) = ap (λ (q : List ℕ). x ∷ q) (append_nil xs)

take_self : (n : ℕ) (xs : List ℕ) → length xs ≡ n → take n xs ≡ xs
take_self n xs h = sym (ap (take n) (append_nil xs)) ∙ take-all n xs [] h

-- A block that is copied through another of any length is the same.
memcpy-memcpy :
    (n : ℕ) (a b src : List ℕ) → length src ≡ n → length b ≡ n → memcpy b (memcpy a src n) n ≡ src
memcpy-memcpy n a b src h k =
    rw (take_self n src h, take-all n src (drop n a) h, drop-all n b k) (append_nil src)

unlocked :
    (s : State) (i : ℕ) (value old : List ℕ)
    → mode_lt (s.lkbs i).grmode pw ≡ false
    → (s.lkbs i).exflags.ivvalblk ≡ false
    → (s.lkbs i).exflags.valblk ≡ true
    → (s.lkbs i).lvbptr ≡ some value
    → lvb_block s ≡ some old
    → set_lvb_unlock s i ≡ write_lvb (count_alloc s) value old
unfolding set_lvb_unlock store_lvb
unlocked s i value old m iv vb p r = rw (m, iv, p, vb, r) refl

-- Counting a call changes neither a lock nor the lockspace.
count_alloc-lkbs : (s : State) → ((count_alloc s).lkbs ≡ s.lkbs) × ((count_alloc s).env ≡ s.env)
unfolding count_alloc
count_alloc-lkbs s = by_block s.rsb.res_lvbptr
  where
    counted : Option (List ℕ) → State
    counted o = elim o [ some b ↦ s | none ↦ record s { lvb_allocs = s.lvb_allocs + 1 } ]

    by_block : (o : Option (List ℕ)) → ((counted o).lkbs ≡ s.lkbs) × ((counted o).env ≡ s.env)
    by_block none = (refl, refl)
    by_block (some b) = (refl, refl)

locked :
    (t : State) (j : ℕ) (src dst : List ℕ)
    → lvb_operation (t.lkbs j).grmode (t.lkbs j).rqmode ≡ LvbOp.returned
    → (t.lkbs j).exflags.valblk ≡ true
    → (t.lkbs j).lvbptr ≡ some dst
    → t.rsb.res_lvbptr ≡ some src
    → t.rsb.valnotvalid ≡ false
    → set_lvb_lock t j ≡ modify t j (set_lvb (memcpy dst src t.env.lvblen) t.rsb.res_lvbseq)
unfolding set_lvb_lock return_lvb note_valnotvalid
locked t j src dst op vb p r v = simp (op, set_lvb_lock, p, vb, r, v, return_lvb, note_valnotvalid)

-- What is written is what a lock then reads.
granted_after :
    (s : State) (j : ℕ) (value dst old : List ℕ)
    → length value ≡ s.env.lvblen
    → lvb_operation (s.lkbs j).grmode (s.lkbs j).rqmode ≡ LvbOp.returned
    → (s.lkbs j).exflags.valblk ≡ true
    → (s.lkbs j).lvbptr ≡ some dst
    → length dst ≡ s.env.lvblen
    → let t = set_lvb_lock (write_lvb s value old) j in
      ((t.lkbs j).lvbptr ≡ some value)
      × ((t.lkbs j).lvbseq ≡ t.rsb.res_lvbseq)
      × (t.rsb.valnotvalid ≡ false)
unfolding write_lvb set_lvb
granted_after s j value dst old len op vj pj lj =
    rw
      (
        locked (write_lvb s value old) j (memcpy old value s.env.lvblen) dst op vj pj refl refl,
        ==-refl j,
        memcpy-memcpy s.env.lvblen old dst value len lj,
      )
      (refl, refl, refl)

-- If a lock that holds PW or EX is unlocked with VALBLK and without IVVALBLK, and its block and
-- that of another lock are as long as the lockspace says, and the resource has a block or one
-- can be allocated for it, the other lock reads the same bytes when it is granted with VALBLK
-- in a mode that returns the block, with the resource's sequence number, and the value is
-- valid.
pub set_lvb_lock-set_lvb_unlock :
    (s : State) (i j : ℕ) (value dst old : List ℕ)
    → i ≢ j
    → mode_lt (s.lkbs i).grmode pw ≡ false
    → (s.lkbs i).exflags.ivvalblk ≡ false
    → (s.lkbs i).exflags.valblk ≡ true
    → (s.lkbs i).lvbptr ≡ some value
    → length value ≡ s.env.lvblen
    → lvb_block s ≡ some old
    → lvb_operation (s.lkbs j).grmode (s.lkbs j).rqmode ≡ LvbOp.returned
    → (s.lkbs j).exflags.valblk ≡ true
    → (s.lkbs j).lvbptr ≡ some dst
    → length dst ≡ s.env.lvblen
    → let t = set_lvb_lock (set_lvb_unlock s i) j in
      ((t.lkbs j).lvbptr ≡ some value)
      × ((t.lkbs j).lvbseq ≡ t.rsb.res_lvbseq)
      × (t.rsb.valnotvalid ≡ false)
set_lvb_lock-set_lvb_unlock s i j value dst old ne m iv vb p len r op vj pj lj =
    rw (unlocked s i value old m iv vb p r) (
      granted_after (count_alloc s) j value dst old (len ∙ sym (ap (λ (e : Env). e.lvblen) q.1))
        (rw q.0 op) (rw q.0 vj) (rw q.0 pj) (lj ∙ sym (ap (λ (e : Env). e.lvblen) q.1)))
  where
    q : ((count_alloc s).lkbs ≡ s.lkbs) × ((count_alloc s).env ≡ s.env)
    q = count_alloc-lkbs s
