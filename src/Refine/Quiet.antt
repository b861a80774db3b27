-- ===== src/Refine/Quiet.antt =====
-- Messages, callbacks and value blocks leave modes and queues alone.
use lockify.Base.{
  ℕ, ◌≡◌, refl, ◌∙◌, Bool, true, false, if◌then◌else◌, ◌&&◌, not, Option, none, some, List,
}
use lockify.Modes.{Mode, pw, mode_lt, LvbOp, lvb_operation}
use lockify.State.Events.{Errno, Message}
use lockify.State.{State, modify}
use lockify.State.Set.{clear_deadlock_cancel, set_lvb, set_lvbseq, set_valnotvalid, set_highbast}
use lockify.Wire.{send_grant, send_bast, queue_cast, queue_bast, is_ecancel}
use lockify.Lvb.{
  set_lvb_lock, set_lvb_unlock, set_lvb_lock_pc, note_valnotvalid, return_lvb, store_lvb, write_lvb,
  count_alloc, lvb_block, copy_lvbseq,
}
use lockify.Refine.Frame.{Still, Still-refl, Still-trans, update-Still, is_listed}

pub record Quiet (s t : State) : Type 0 where
  pub still : Still s.lkbs t.lkbs
  pub granted : t.rsb.grantqueue ≡ s.rsb.grantqueue
  pub converting : t.rsb.convertqueue ≡ s.rsb.convertqueue
  pub waiting : t.rsb.waitqueue ≡ s.rsb.waitqueue

pub Quiet-is_listed : {s t : State} → Quiet s t → (j : ℕ) → is_listed t.rsb j ≡ is_listed s.rsb j
Quiet-is_listed q j = rw (q.granted, q.converting)

pub Quiet-refl : (s : State) → Quiet s s
Quiet-refl s = record {
  still = Still-refl s.lkbs;
  granted = refl;
  converting = refl;
  waiting = refl;
}

pub Quiet-trans : {s t u : State} → Quiet s t → Quiet t u → Quiet s u
Quiet-trans a b = record {
  still = Still-trans a.still b.still;
  granted = b.granted ∙ a.granted;
  converting = b.converting ∙ a.converting;
  waiting = b.waiting ∙ a.waiting;
}

-- Two states with the same modes and the same queues.
pub alike :
    (s t : State)
    → Still s.lkbs t.lkbs
    → t.rsb.grantqueue ≡ s.rsb.grantqueue
    → t.rsb.convertqueue ≡ s.rsb.convertqueue
    → t.rsb.waitqueue ≡ s.rsb.waitqueue
    → Quiet s t
alike s t k g c w = record { still = k; granted = g; converting = c; waiting = w }

Quiet-if : {s t u : State} (b : Bool) → Quiet s t → Quiet s u → Quiet s (if b then t else u)
Quiet-if true x y = x
Quiet-if false x y = y

pub send_grant-Quiet : (s : State) (i : ℕ) → Quiet s (send_grant s i)
unfolding send_grant
send_grant-Quiet s i =
    Quiet-if (s.env.get_mhandle s.mhandles) (alike _ _ (Still-refl s.lkbs) refl refl refl)
      (alike _ _ (Still-refl s.lkbs) refl refl refl)

pub send_bast-Quiet : (s : State) (i : ℕ) (m : Mode) → Quiet s (send_bast s i m)
unfolding send_bast
send_bast-Quiet s i m =
    Quiet-if (s.env.get_mhandle s.mhandles) (alike _ _ (Still-refl s.lkbs) refl refl refl)
      (alike _ _ (Still-refl s.lkbs) refl refl refl)

pub queue_cast-Quiet : (s : State) (i : ℕ) (e : Errno) → Quiet s (queue_cast s i e)
unfolding queue_cast clear_deadlock_cancel
queue_cast-Quiet s i e = Quiet-if (s.lkbs i).mstcpy (Quiet-refl s) (
    Quiet-if (is_ecancel e && (s.lkbs i).deadlock_cancel)
      (alike _ _ (update-Still s.lkbs i _ refl refl refl refl) refl refl refl)
      (alike _ _ (Still-refl s.lkbs) refl refl refl))

pub queue_bast-Quiet : (s : State) (i : ℕ) (m : Mode) → Quiet s (queue_bast s i m)
unfolding queue_bast
queue_bast-Quiet s i m =
    Quiet-if (s.lkbs i).mstcpy (send_bast-Quiet s i m)
      (alike _ _ (Still-refl s.lkbs) refl refl refl)

pub set_highbast-Quiet : (s : State) (i : ℕ) (m : Mode) → Quiet s (modify s i (set_highbast m))
unfolding set_highbast
set_highbast-Quiet s i m = alike _ _ (update-Still s.lkbs i _ refl refl refl refl) refl refl refl

note_valnotvalid-Quiet : (i : ℕ) (s : State) → Quiet s (note_valnotvalid i s)
unfolding note_valnotvalid set_valnotvalid
note_valnotvalid-Quiet i s =
    Quiet-if s.rsb.valnotvalid
      (alike _ _ (update-Still s.lkbs i _ refl refl refl refl) refl refl refl) (Quiet-refl s)

set_lvb-Quiet : (s : State) (i : ℕ) (b : List ℕ) (n : ℕ) → Quiet s (modify s i (set_lvb b n))
unfolding set_lvb
set_lvb-Quiet s i b n = alike _ _ (update-Still s.lkbs i _ refl refl refl refl) refl refl refl

set_lvbseq-Quiet : (s : State) (i : ℕ) (n : ℕ) → Quiet s (modify s i (set_lvbseq n))
unfolding set_lvbseq
set_lvbseq-Quiet s i n = alike _ _ (update-Still s.lkbs i _ refl refl refl refl) refl refl refl

-- A step that depends on a pointer, null or not.
Quiet-option :
    {s : State} (o : Option (List ℕ)) (t : State) (f : List ℕ → State)
    → Quiet s t
    → ((b : List ℕ) → Quiet s (f b))
    → Quiet s (elim o [ none ↦ t | some b ↦ f b ])
Quiet-option none t f a b = a
Quiet-option (some x) t f a b = b x

return_lvb-Quiet : (s : State) (i : ℕ) → Quiet s (return_lvb s i)
unfolding return_lvb
return_lvb-Quiet s i = Quiet-option (s.lkbs i).lvbptr _ _ (Quiet-refl s) λ dst.
    Quiet-if (not (s.lkbs i).exflags.valblk) (Quiet-refl s) (
      Quiet-option s.rsb.res_lvbptr _ _ (Quiet-refl s)
        λ src. Quiet-trans (set_lvb-Quiet s i _ _) (note_valnotvalid-Quiet i _))

count_alloc-Quiet : (s : State) → Quiet s (count_alloc s)
unfolding count_alloc
count_alloc-Quiet s =
    Quiet-option s.rsb.res_lvbptr _ _ (alike _ _ (Still-refl s.lkbs) refl refl refl)
      (λ b. Quiet-refl s)

store_lvb-Quiet :
    (done : State → State) (s : State) (i : ℕ)
    → ((t : State) → Quiet t (done t))
    → Quiet s (store_lvb done s i)
unfolding store_lvb write_lvb
store_lvb-Quiet done s i q =
    Quiet-if (s.lkbs i).exflags.ivvalblk (alike _ _ (Still-refl s.lkbs) refl refl refl) (
      Quiet-option (s.lkbs i).lvbptr _ _ (Quiet-refl s) λ src.
        Quiet-if (not (s.lkbs i).exflags.valblk) (Quiet-refl s) (
          Quiet-option (lvb_block s) _ _ (count_alloc-Quiet s) λ dst.
            Quiet-trans
              (Quiet-trans (count_alloc-Quiet s)
                (alike _ _ (Still-refl (count_alloc s).lkbs) refl refl refl))
              (q _)))

pub set_lvb_lock-Quiet : (s : State) (i : ℕ) → Quiet s (set_lvb_lock s i)
unfolding set_lvb_lock
set_lvb_lock-Quiet s i = by_operation (lvb_operation (s.lkbs i).grmode (s.lkbs i).rqmode)
  where
    by_operation :
        (op : LvbOp)
        → Quiet s (elim op [
          | LvbOp.returned ↦ return_lvb s i
          | LvbOp.written ↦ store_lvb (λ t. note_valnotvalid i (copy_lvbseq i t)) s i
          | LvbOp.nothing ↦ note_valnotvalid i s
        ])
    by_operation LvbOp.returned = return_lvb-Quiet s i
    by_operation LvbOp.written =
        store_lvb-Quiet _ s i λ t. Quiet-trans (set_lvbseq-Quiet t i _) (note_valnotvalid-Quiet i _)
    by_operation LvbOp.nothing = note_valnotvalid-Quiet i s

pub set_lvb_unlock-Quiet : (s : State) (i : ℕ) → Quiet s (set_lvb_unlock s i)
unfolding set_lvb_unlock
set_lvb_unlock-Quiet s i =
    Quiet-if (mode_lt (s.lkbs i).grmode pw) (Quiet-refl s) (store_lvb-Quiet _ s i Quiet-refl)

pub set_lvb_lock_pc-Quiet : (s : State) (i : ℕ) (ms : Message) → Quiet s (set_lvb_lock_pc s i ms)
unfolding set_lvb_lock_pc
set_lvb_lock_pc-Quiet s i ms = Quiet-option (s.lkbs i).lvbptr _ _ (Quiet-refl s) λ dst.
    Quiet-if (not (s.lkbs i).exflags.valblk) (Quiet-refl s)
      (by_operation (lvb_operation (s.lkbs i).grmode (s.lkbs i).rqmode) _ (set_lvb-Quiet s i _ _))
  where
    by_operation :
        (op : LvbOp) (t : State) → Quiet s t → Quiet s (elim op [ LvbOp.returned ↦ t | _ ↦ s ])
    by_operation LvbOp.returned t q = q
    by_operation LvbOp.written t q = Quiet-refl s
    by_operation LvbOp.nothing t q = Quiet-refl s
