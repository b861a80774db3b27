-- ===== src/Receive/Blocks.antt =====
-- The value block of a message is never copied past the end of a lock's block: fs/dlm/lock.c
-- 1836-1855 and 3836-3855.
use lockify.Base.{
  ℕ, zero, suc, ◌≡◌, ◌≤◌, refl, ◌∙◌, Bool, true, false, not, if◌then◌else◌, ==-refl, arith, List,
  [], ◌∷◌, Option, none, some, length,
}
use lockify.Modes.{lvb_operation, LvbOp}
use lockify.State.Events.{Message, Errno, success, enomem}
use lockify.State.{State, modify}
use lockify.State.Set.{set_lvb}
use lockify.Lvb.{memcpy, zeros, set_lvb_lock_pc}
use lockify.Receive.{receive_lvb, set_lvbptr, received_len, lvb_allocated, count_lvb, copy_lvb}

length-memcpy :
    (dst src : List ℕ) (n : ℕ)
    → n ≤ length src
    → n ≤ length dst
    → length (memcpy dst src n) ≡ length dst
length-memcpy dst src zero h k = refl
length-memcpy [] src (suc n) h k = absurd (omega (arith, k))
length-memcpy dst [] (suc n) h k = absurd (omega (arith, h))
length-memcpy (d ∷ dst) (x ∷ src) (suc n) h k =
    omega (arith, length-memcpy dst src n (omega (arith, h)) (omega (arith, k)))

length-zeros : (n : ℕ) → length (zeros n) ≡ n
length-zeros zero = refl
length-zeros (suc n) = omega (arith, length-zeros n)

-- The block of a lock, if it has one, is as long as the lockspace says.
abbrev pub Fits : State → ℕ → Type 0
Fits s i = (b : List ℕ) → (s.lkbs i).lvbptr ≡ some b → length b ≡ s.env.lvblen

-- Whatever the message holds, the length that is copied is in it and in the block.
received_len-le :
    (s : State) (ms : Message) (b : List ℕ)
    → length b ≡ s.env.lvblen
    → (received_len s ms ≤ length ms.m_extra) × (received_len s ms ≤ length b)
received_len-le s ms b h = (ground arith, ground (arith, h))

written-Fits :
    (t : State) (i : ℕ) (b : List ℕ)
    → length b ≡ t.env.lvblen
    → (t.lkbs i).lvbptr ≡ some b
    → Fits t i
written-Fits t i b h e c k = cc

memcpy-fits :
    (s : State) (ms : Message) (dst : List ℕ)
    → length dst ≡ s.env.lvblen
    → length (memcpy dst ms.m_extra (received_len s ms)) ≡ s.env.lvblen
memcpy-fits s ms dst h =
    let le = received_len-le s ms dst h in
    length-memcpy dst ms.m_extra (received_len s ms) le.0 le.1 ∙ h

copy_lvb-Fits :
    (s : State) (i : ℕ) (ms : Message) (dst : List ℕ)
    → length dst ≡ s.env.lvblen
    → Fits (copy_lvb s i ms dst) i
unfolding set_lvbptr
copy_lvb-Fits s i ms dst h =
    written-Fits (copy_lvb s i ms dst) i _ (memcpy-fits s ms dst h) (ground (arith, ==-refl i))

set_lvb-Fits :
    (s : State) (i : ℕ) (ms : Message) (dst : List ℕ)
    → length dst ≡ s.env.lvblen
    → Fits (modify s i (set_lvb (memcpy dst ms.m_extra (received_len s ms)) ms.m_lvbseq)) i
unfolding set_lvb
set_lvb-Fits s i ms dst h =
    written-Fits (modify s i (set_lvb (memcpy dst ms.m_extra (received_len s ms)) ms.m_lvbseq)) i _
      (memcpy-fits s ms dst h) (ground (arith, ==-refl i))

if-Fits :
    {S : Type 0} (p : S → State) (i : ℕ) (b : Bool) (x y : S)
    → Fits (p x) i
    → Fits (p y) i
    → Fits (p (if b then x else y)) i
if-Fits p i true x y f g = f
if-Fits p i false x y f g = g

abbrev state_of : State × Errno → State
state_of r = r.0

receive_lvb-Fits : (s : State) (i : ℕ) (ms : Message) → Fits s i → Fits (receive_lvb s i ms).0 i
unfolding receive_lvb
receive_lvb-Fits s i ms f =
    if-Fits state_of i (not (s.lkbs i).exflags.valblk) (s, success) _ f
      (by_block (s.lkbs i).lvbptr refl)
  where
    by_block :
        (o : Option (List ℕ))
        → (s.lkbs i).lvbptr ≡ o
        → Fits
            (elim o as (λ _. State × Errno) [
              | some dst ↦ (copy_lvb s i ms dst, success)
              | none ↦
                  if lvb_allocated s
                  then (copy_lvb (count_lvb s) i ms (zeros s.env.lvblen), success)
                  else (count_lvb s, enomem)
            ]).0
            i
    by_block (some dst) e = copy_lvb-Fits s i ms dst (f dst e)
    by_block none e =
        if-Fits state_of i (lvb_allocated s)
          (copy_lvb (count_lvb s) i ms (zeros s.env.lvblen), success) (count_lvb s, enomem)
          (copy_lvb-Fits (count_lvb s) i ms (zeros s.env.lvblen) (length-zeros s.env.lvblen)) f

set_lvb_lock_pc-Fits :
    (s : State) (i : ℕ) (ms : Message) → Fits s i → Fits (set_lvb_lock_pc s i ms) i
unfolding set_lvb_lock_pc
set_lvb_lock_pc-Fits s i ms f = by_block (s.lkbs i).lvbptr refl
  where
    by_operation :
        (dst : List ℕ) (op : LvbOp)
        → length dst ≡ s.env.lvblen
        → Fits
            (elim op as (λ _. State) [
              | LvbOp.returned ↦
                  modify s i (set_lvb (memcpy dst ms.m_extra (received_len s ms)) ms.m_lvbseq)
              | _ ↦ s
            ])
            i
    by_operation dst LvbOp.returned h = set_lvb-Fits s i ms dst h
    by_operation dst LvbOp.written h = f
    by_operation dst LvbOp.nothing h = f

    by_block :
        (o : Option (List ℕ))
        → (s.lkbs i).lvbptr ≡ o
        → Fits
            (elim o as (λ _. State) [
              | none ↦ s
              | some dst ↦
                  if not (s.lkbs i).exflags.valblk
                  then s
                  else elim (lvb_operation (s.lkbs i).grmode (s.lkbs i).rqmode) [
                    | LvbOp.returned ↦
                        modify s i (set_lvb (memcpy dst ms.m_extra (received_len s ms)) ms.m_lvbseq)
                    | _ ↦ s
                  ]
            ])
            i
    by_block none e = f
    by_block (some dst) e =
        if-Fits (λ (s : State). s) i (not (s.lkbs i).exflags.valblk) s _ f
          (by_operation dst (lvb_operation (s.lkbs i).grmode (s.lkbs i).rqmode) (f dst e))

-- If the block of a lock is as long as the lockspace says, it is so after a message is received
-- for the lock, whatever the length of the message's data: in receive_lvb, also where the block
-- is allocated, and in set_lvb_lock_pc.
pub received-Fits :
    (s : State) (i : ℕ) (ms : Message)
    → Fits s i
    → Fits (receive_lvb s i ms).0 i × Fits (set_lvb_lock_pc s i ms) i
received-Fits s i ms f = (receive_lvb-Fits s i ms f, set_lvb_lock_pc-Fits s i ms f)
