-- ===== src/Lvb.antt =====
-- The lock value block: fs/dlm/lock.c 1756-1853. A block is the list of its bytes; the pointer of
-- a lock and that of the resource are null or point to a block of its own.
pub mod RoundTrip
use lockify.Base.{
  ℕ, zero, suc, ◌+◌, ◌%◌, ◌^◌, Bool, true, false, not, List, [], ◌∷◌, ◌++◌, Option, none, some,
  if◌then◌else◌, take, drop, length, ltb,
}
use lockify.Modes.{pw, mode_lt, lvb_operation, LvbOp}
use lockify.State.Events.{Message}
use lockify.State.{State, modify, put_rsb}
use lockify.State.Set.{set_lvb, set_lvbseq, set_valnotvalid}

abbrev u32 : ℕ → ℕ
u32 n = n % 2 ^ 32

-- `memcpy(dst, src, len)` into a block that is at least `len` long.
abbrev pub memcpy : List ℕ → List ℕ → ℕ → List ℕ
memcpy dst src len = take len src ++ drop len dst

abbrev pub set_rsb_valnotvalid : Bool → State → State
set_rsb_valnotvalid b s = put_rsb s (record s.rsb { valnotvalid = b })

abbrev pub zeros : ℕ → List ℕ
zeros zero = []
zeros (suc n) = 0 ∷ zeros n

-- The resource's block, allocated if it has none; `none` if that fails.
abbrev pub lvb_block : State → Option (List ℕ)
lvb_block s = elim s.rsb.res_lvbptr [
  | some b ↦ some b
  | none ↦ if s.env.allocate_lvb s.lvb_allocs then some (zeros s.env.lvblen) else none
]

-- The calls of `dlm_allocate_lvb` so far, once more if the resource has no block.
unfoldable pub count_alloc : State → State
count_alloc s = elim s.rsb.res_lvbptr [
  | some b ↦ s
  | none ↦ record s { lvb_allocs = s.lvb_allocs + 1 }
]

-- `memcpy` of the lock's block into the resource's, a new sequence number, and a valid value.
unfoldable pub write_lvb : State → List ℕ → List ℕ → State
write_lvb s src dst = put_rsb s (record s.rsb {
  res_lvbptr = some (memcpy dst src s.env.lvblen);
  res_lvbseq = u32 (s.rsb.res_lvbseq + 1);
  valnotvalid = false;
})

-- The last test of `set_lvb_lock`.
unfoldable pub note_valnotvalid : ℕ → State → State
note_valnotvalid i s = if s.rsb.valnotvalid then modify s i set_valnotvalid else s

-- b == 1
unfoldable pub return_lvb : State → ℕ → State
return_lvb s i = elim (s.lkbs i).lvbptr [
  | none ↦ s
  | some dst ↦ if not (s.lkbs i).exflags.valblk then s else elim s.rsb.res_lvbptr [
    | none ↦ s
    | some src ↦
        note_valnotvalid i (modify s i (set_lvb (memcpy dst src s.env.lvblen) s.rsb.res_lvbseq))
  ]
]

-- b == 0; `seq` copies the new sequence number to the lock.
unfoldable pub store_lvb : (State → State) → State → ℕ → State
store_lvb done s i =
    if (s.lkbs i).exflags.ivvalblk then set_rsb_valnotvalid true s else elim (s.lkbs i).lvbptr [
      | none ↦ s
      | some src ↦ if not (s.lkbs i).exflags.valblk then s else elim (lvb_block s) [
        | none ↦ count_alloc s
        | some dst ↦ done (write_lvb (count_alloc s) src dst)
      ]
    ]

abbrev pub copy_lvbseq : ℕ → State → State
copy_lvbseq i s = modify s i (set_lvbseq s.rsb.res_lvbseq)

unfoldable pub set_lvb_lock : State → ℕ → State
set_lvb_lock s i = elim (lvb_operation (s.lkbs i).grmode (s.lkbs i).rqmode) [
  | LvbOp.returned ↦ return_lvb s i
  | LvbOp.written ↦ store_lvb (λ t. note_valnotvalid i (copy_lvbseq i t)) s i
  | LvbOp.nothing ↦ note_valnotvalid i s
]

unfoldable pub set_lvb_unlock : State → ℕ → State
set_lvb_unlock s i = if mode_lt (s.lkbs i).grmode pw then s else store_lvb (λ t. t) s i

-- `receive_extralen` is the length of the extra data of the message.
unfoldable pub set_lvb_lock_pc : State → ℕ → Message → State
set_lvb_lock_pc s i ms = elim (s.lkbs i).lvbptr [
  | none ↦ s
  | some dst ↦
      if not (s.lkbs i).exflags.valblk
      then s
      else elim (lvb_operation (s.lkbs i).grmode (s.lkbs i).rqmode) [
        | LvbOp.returned ↦
            let received = length ms.m_extra in
            let len = if ltb s.env.lvblen received then s.env.lvblen else received in
            modify s i (set_lvb (memcpy dst ms.m_extra len) ms.m_lvbseq)
        | _ ↦ s
      ]
]
