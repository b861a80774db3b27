-- ===== src/State/Set.antt =====
-- The writes to the fields of a lock that the code makes together.
use lockify.Base.{
  ℕ, ◌+◌, ◌-◌, Bool, true, false, not, leb, List, some, [], ◌∷◌, ◌++◌, list_del, ◌==◌,
  if◌then◌else◌, update,
}
use lockify.Modes.{Mode, iv, nl}
use lockify.State.Events.{LkSts, is_off, NodeId, SbFlags}
use lockify.State.{State, Lkb, modify, dlm_assert}

unfoldable pub add_ref : Lkb → Lkb
add_ref l = record l { ref = l.ref + 1 }

unfoldable pub drop_ref : Lkb → Lkb
drop_ref l = record l { ref = l.ref - 1 }

-- `kref_get`
abbrev pub hold_lkb : State → ℕ → State
hold_lkb s i = modify s i add_ref

-- `kref_put` where the last reference is not to be dropped.
abbrev pub unhold_lkb : State → ℕ → State
unhold_lkb s i = modify (dlm_assert (not (leb (s.lkbs i).ref 1)) s) i drop_ref

unfoldable pub set_status : LkSts → Lkb → Lkb
set_status sts l = record l { status = sts }

unfoldable pub set_grmode : Mode → Lkb → Lkb
set_grmode m l = record l { grmode = m }

unfoldable pub set_rqmode : Mode → Lkb → Lkb
set_rqmode m l = record l { rqmode = m }

unfoldable pub set_highbast : Mode → Lkb → Lkb
set_highbast m l = record l { highbast = m }

-- The last two lines of `_grant_lock`.
unfoldable pub clear_request : Lkb → Lkb
clear_request l = record l { rqmode = iv; highbast = nl }

unfoldable pub set_demoted : Lkb → Lkb
set_demoted l = record l { grmode = nl; sbflags = record l.sbflags { demoted = true } }

unfoldable pub set_altmode : Mode → Lkb → Lkb
set_altmode m l = record l { rqmode = m; sbflags = record l.sbflags { altmode = true } }

unfoldable pub set_valnotvalid : Lkb → Lkb
set_valnotvalid l = record l { sbflags = record l.sbflags { valnotvalid = true } }

unfoldable pub set_lvb : List ℕ → ℕ → Lkb → Lkb
set_lvb b seq l = record l { lvbptr = some b; lvbseq = seq }

unfoldable pub set_lvbseq : ℕ → Lkb → Lkb
set_lvbseq seq l = record l { lvbseq = seq }

unfoldable pub clear_deadlock_cancel : Lkb → Lkb
clear_deadlock_cancel l = record l { deadlock_cancel = false }

unfoldable pub set_nodeid : NodeId → Lkb → Lkb
set_nodeid n l = record l { nodeid = n }

unfoldable pub set_reply_flags : SbFlags → Bool → Lkb → Lkb
set_reply_flags f u l = record l { sbflags = f; user = u }

unfoldable pub set_parent : ℕ → Lkb → Lkb
set_parent parent l = record l { parent_lkid = parent }

-- A lock waits for its notification as a child of another.
unfoldable pub add_child : ℕ → Lkb → Lkb
add_child i l = record l {
  child_waiters = l.child_waiters ++ i ∷ [];
  total_children = l.total_children + 1;
}

unfoldable pub remove_child : ℕ → Lkb → Lkb
remove_child i l = record l {
  child_waiters = list_del i l.child_waiters;
  total_children = l.total_children - 1;
}

-- `__put_lkb`: with its last reference a lock leaves the table of ids, and it must be off all
-- queues then.
unfoldable pub put_lkb : State → ℕ → State
put_lkb s i =
    let t = modify s i drop_ref in
    if (s.lkbs i).ref == 1
    then record (dlm_assert (is_off (s.lkbs i).status) t) { present = update t.present i false }
    else t
