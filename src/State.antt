-- ===== src/State.antt =====
-- The data of a lock and of a resource, fs/dlm/dlm_internal.h 150-374, and the state that the
-- code of fs/dlm/lock.c changes while it holds the mutex of one resource.
pub mod Flags
pub mod Events
pub mod Set
use lockify.Base.{
  ℕ, ◌+◌, ◌-◌, Bool, true, false, not, ◌&&◌, ◌||◌, List, Option, none, some, update, if◌then◌else◌,
  elem,
}
use lockify.Modes.{Mode, is_middle, is_down}
use Flags.{LkFlags}
use Events.{NodeId, unset, node, node_eq, is_unset, MsgType, LkSts, SbFlags, Callback, Message}

-- `struct dlm_lkb`. The lock's id is its index in the store; a list head of the lock is membership
-- in the list; a flag word is a field for each of its bits that the code reads.
pub record Lkb : Type 0 where
  pub ref : ℕ  -- lkb_ref
  pub nodeid : NodeId
  pub remid : ℕ
  pub exflags : LkFlags
  pub sbflags : SbFlags
  pub user : Bool  -- lkb_dflags, DLM_DFL_USER
  pub mstcpy : Bool  -- lkb_iflags
  pub resend : Bool
  pub overlap_unlock : Bool
  pub overlap_cancel : Bool
  pub endoflife : Bool
  pub deadlock_cancel : Bool
  pub lvbseq : ℕ
  pub status : LkSts
  pub rqmode : Mode
  pub grmode : Mode
  pub highbast : Mode
  pub wait_type : Option MsgType  -- `none` is 0
  pub wait_count : ℕ
  pub wait_nodeid : NodeId
  pub lvbptr : Option (List ℕ)  -- `none` is a null pointer
  pub lksb : Bool  -- lkb_lksb is not null
  pub astfn : Bool
  pub bastfn : Bool
  pub astparam : ℕ
  pub parent_lkid : ℕ
  pub total_children : ℕ
  pub child_waiters : List ℕ

-- `struct dlm_rsb`
pub record Rsb : Type 0 where
  pub res_name : List ℕ
  pub res_nodeid : NodeId
  pub master_nodeid : ℕ
  pub res_lvbseq : ℕ
  pub first_lkid : ℕ
  pub lookup : List ℕ
  pub grantqueue : List ℕ
  pub convertqueue : List ℕ
  pub waitqueue : List ℕ
  pub res_lvbptr : Option (List ℕ)
  pub master_uncertain : Bool  -- res_flags
  pub valnotvalid : Bool
  pub recover_grant : Bool

-- What the code asks of other parts of the kernel: `dlm_our_nodeid`, `dlm_dir_nodeid` of the
-- resource, `ls_lvblen`, and whether the k-th call of `dlm_midcomms_get_mhandle` and of
-- `dlm_allocate_lvb` succeeds.
pub record Env : Type 0 where
  pub our_nodeid : ℕ
  pub dir_nodeid : ℕ
  pub lvblen : ℕ
  pub get_mhandle : ℕ → Bool
  pub allocate_lvb : ℕ → Bool

-- One resource with the locks of its lockspace. `bug` is set where a DLM_ASSERT fails, after which
-- the kernel does not go on.
pub record State : Type 0 where
  pub env : Env
  pub lkbs : ℕ → Lkb
  pub present : ℕ → Bool  -- ls_lkbidr has a lock of that id
  pub rsb : Rsb
  pub waiters : List ℕ  -- ls_waiters
  pub callbacks : List Callback  -- the calls of `dlm_add_cb`, newest first
  pub sent : List Message  -- the messages committed, newest first
  pub mhandles : ℕ  -- calls of `dlm_midcomms_get_mhandle`
  pub lvb_allocs : ℕ  -- calls of `dlm_allocate_lvb`
  pub bug : Bool

-- A write to fields of the lock `i`; `lockify.State.Set` has the writes.
abbrev pub modify : State → ℕ → (Lkb → Lkb) → State
modify s i f = record s { lkbs = update s.lkbs i (f (s.lkbs i)) }

abbrev pub put_rsb : State → Rsb → State
put_rsb s r = record s { rsb = r }

-- DLM_ASSERT
abbrev pub dlm_assert : Bool → State → State
dlm_assert b s = record s { bug = s.bug || not b }

abbrev pub can_be_queued : Lkb → Bool
can_be_queued l = not l.exflags.noqueue

abbrev pub force_blocking_asts : Lkb → Bool
force_blocking_asts l = l.exflags.noqueuebast

abbrev pub is_overlap : Lkb → Bool
is_overlap l = l.overlap_unlock || l.overlap_cancel

abbrev pub middle_conversion : Lkb → Bool
middle_conversion l = is_middle l.grmode l.rqmode

abbrev pub down_conversion : Lkb → Bool
down_conversion l = is_down l.grmode l.rqmode

abbrev pub is_process_copy : Lkb → Bool
is_process_copy l = not (node_eq l.nodeid (node 0)) && not l.mstcpy

-- `is_remote`, with its assertion that the master is known.
abbrev pub is_remote : State → Bool
is_remote s = not (node_eq s.rsb.res_nodeid (node 0))

abbrev pub assert_known_master : State → State
assert_known_master s = dlm_assert (not (is_unset s.rsb.res_nodeid)) s
