-- ===== src/Grant.antt =====
-- Whether a lock can be granted, and granting it: fs/dlm/lock.c 1867-2000 and 2067-2312.
pub mod Order
use lockify.Base.{
  ℕ, Bool, true, false, not, ◌&&◌, ◌||◌, List, [], ◌∷◌, Option, none, some, if◌then◌else◌, ◌==◌,
  list_empty,
}
use lockify.Modes.{Mode, iv, nl, cw, pr, mode_eq, modes_compat}
use lockify.State.Events.{LkSts, is_off, success, MsgType, request_reply, grant, Message}
use lockify.State.{State, Lkb, modify, can_be_queued}
use lockify.State.Set.{unhold_lkb, set_grmode, set_rqmode, clear_request, set_demoted, set_altmode}
use lockify.Queue.{add_lkb, del_lkb, move_lkb, first_in_list, queue_conflict}
use lockify.Wire.{queue_cast, send_grant}
use lockify.Lvb.{set_lvb_lock, set_lvb_lock_pc, set_lvb_unlock}

-- `_remove_lock`: the second `unhold_lkb` undoes the reference of `create_lkb`.
unfoldable pub remove_held : State → ℕ → State
remove_held s i = unhold_lkb (modify (del_lkb s i) i (set_grmode iv)) i

unfoldable pub remove_lock : State → ℕ → State
remove_lock s i = remove_held (set_lvb_unlock s i) i

unfoldable pub remove_lock_pc : State → ℕ → State
remove_lock_pc s i = remove_held s i

-- What `revert_lock` did: 0, 1 or -1.
pub data Reverted : Type 0 where
  nothing : Reverted
  moved : Reverted
  removed : Reverted

unfoldable pub revert_lock : State → ℕ → State × Reverted
revert_lock s i =
    let t = modify s i (set_rqmode iv) in
    elim (t.lkbs i).status [
      | LkSts.granted ↦ (t, nothing)
      | LkSts.convert ↦ (move_lkb t i LkSts.granted, moved)
      | LkSts.waiting ↦ (unhold_lkb (modify (del_lkb t i) i (set_grmode iv)) i, removed)
      | LkSts.off ↦ (t, nothing)
    ]

-- `_grant_lock`
unfoldable pub grant_held : State → ℕ → State
grant_held s i =
    let t = modify s i (set_grmode (s.lkbs i).rqmode) in
    modify
      (if mode_eq (s.lkbs i).grmode (s.lkbs i).rqmode
        then s
        else if is_off (s.lkbs i).status
        then add_lkb t i LkSts.granted
        else move_lkb t i LkSts.granted)
      i clear_request

unfoldable pub grant_lock : State → ℕ → State
grant_lock s i = grant_held (set_lvb_lock s i) i

unfoldable pub grant_lock_pc : State → ℕ → Message → State
grant_lock_pc s i ms = grant_held (set_lvb_lock_pc s i ms) i

unfoldable pub grant_lock_pending : State → ℕ → State
grant_lock_pending s i =
    let t = grant_lock s i in if (t.lkbs i).mstcpy then send_grant t i else queue_cast t i success

unfoldable pub munge_demoted : State → ℕ → State
munge_demoted s i =
    if mode_eq (s.lkbs i).rqmode iv || mode_eq (s.lkbs i).grmode iv
    then s
    else modify s i (set_grmode nl)

abbrev may_alter : MsgType → Bool
may_alter request_reply = true
may_alter grant = true
may_alter _ = false

unfoldable pub munge_altmode : State → ℕ → MsgType → State
munge_altmode s i m_type =
    if not (may_alter m_type)
    then s
    else if (s.lkbs i).exflags.altpr
    then modify s i (set_rqmode pr)
    else if (s.lkbs i).exflags.altcw
    then modify s i (set_rqmode cw)
    else s

-- The loop of `conversion_deadlock_detect`; `ahead` is `lkb_is_ahead`.
unfoldable pub deadlock_in : (ℕ → Lkb) → List ℕ → ℕ → Bool → Bool
deadlock_in lkbs [] i ahead = false
deadlock_in lkbs (lkb1 ∷ rest) i ahead =
    let later = deadlock_in lkbs rest i (ahead || lkb1 == i) in
    let blocks = not (modes_compat (lkbs i).grmode (lkbs lkb1).rqmode) in
    let blocked = not (modes_compat (lkbs lkb1).grmode (lkbs i).rqmode) in
    if lkb1 == i
    then later
    else if (if ahead then blocks && blocked else blocks)
    then true
    else later

unfoldable pub conversion_deadlock_detect : State → ℕ → Bool
conversion_deadlock_detect s i = deadlock_in s.lkbs s.rsb.convertqueue i false

-- `_can_be_granted`, a test that changes nothing.
unfoldable pub grantable : State → ℕ → Bool → Bool → Bool
grantable s i now recover =
    let l = s.lkbs i in
    let conv = not (mode_eq l.grmode iv) in
    if l.exflags.expedite
    then true
    else if queue_conflict s.lkbs s.rsb.grantqueue i
    then false
    else if queue_conflict s.lkbs s.rsb.convertqueue i
    then false
    else if conv && recover
    then true
    else if now && conv && not l.exflags.quecvt
    then true
    else if now && conv && l.exflags.quecvt
    then list_empty s.rsb.convertqueue
    else if l.exflags.noorder
    then true
    else if not now && conv && first_in_list i s.rsb.convertqueue
    then true
    else if now && not conv && list_empty s.rsb.convertqueue && list_empty s.rsb.waitqueue
    then true
    else not now && not conv && list_empty s.rsb.convertqueue && first_in_list i s.rsb.waitqueue

-- The alternate mode that ALTPR or ALTCW allows.
unfoldable pub alt_mode : Lkb → Option Mode
alt_mode l =
    if not (mode_eq l.rqmode pr) && l.exflags.altpr
    then some pr
    else if not (mode_eq l.rqmode cw) && l.exflags.altcw
    then some cw
    else none

-- The last part of `can_be_granted`: once more with the alternate mode, which is kept only if it
-- can be granted.
unfoldable pub try_alt : State → ℕ → Bool → State × Bool
try_alt s i now = elim (alt_mode (s.lkbs i)) [
  | none ↦ (s, false)
  | some alt ↦
      if grantable (modify s i (set_rqmode alt)) i now false
      then (modify s i (set_altmode alt), true)
      else (s, false)
]

pub record Verdict : Type 0 where
  pub after : State
  pub ok : Bool
  pub deadlk : Bool  -- `*err` is -EDEADLK, where the caller asks for it

unfoldable pub can_be_granted : State → ℕ → Bool → Bool → Bool → Verdict
can_be_granted s i now recover want_err =
    let l = s.lkbs i in
    if grantable s i now recover
    then record { after = s; ok = true; deadlk = false }
    else if not (mode_eq l.grmode iv) && can_be_queued l && conversion_deadlock_detect s i
    then (if l.exflags.convdeadlk
        then record { after = modify s i set_demoted; ok = false; deadlk = false }
        else record { after = s; ok = false; deadlk = want_err })
    else let (t, ok) = try_alt s i now in record { after = t; ok = ok; deadlk = false }
