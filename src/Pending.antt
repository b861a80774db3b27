-- ===== src/Pending.antt =====
-- Granting what waits, and blocking callbacks: fs/dlm/lock.c 2314-2497. A walk over a queue goes
-- by the entries that stand on it at its start: a step takes off the queue only its own entry, and
-- `list_for_each_entry_safe` has the next one by then.
pub mod Measure
pub mod Told
pub mod Sent
pub mod Ends
pub mod Passes
pub mod Finished
use lockify.Base.{
  ℕ, zero, suc, ◌+◌, Bool, true, false, not, ◌&&◌, ◌||◌, List, [], ◌∷◌, if◌then◌else◌, ◌==◌, length,
}
use lockify.Modes.{Mode, iv, nl, cw, pr, ex, mode_eq, mode_lt, mode_max, modes_compat}
use lockify.State.Events.{NodeId, node, node_eq}
use lockify.State.{State, Lkb, Rsb, modify}
use lockify.State.Set.{set_highbast}
use lockify.Wire.{queue_bast}
use lockify.Grant.{Verdict, can_be_granted, grant_lock_pending}

-- `foldl` over the entries of a queue.
unfoldable pub walk {ℓ} : {S : Type ℓ} → (S → ℕ → S) → S → List ℕ → S
walk step s [] = s
walk step s (i ∷ rest) = walk step (step s i) rest

-- The variables of `grant_pending_convert` in one pass over the convert queue.
pub record Pass : Type 0 where
  pub after : State
  pub hi : Mode
  pub cw_blocked : Bool  -- *cw
  pub grant_restart : Bool
  pub demote_restart : Bool
  pub count : ℕ

unfoldable pub bast_deadlock : State → ℕ → State
bast_deadlock s i =
    let l = s.lkbs i in
    if l.exflags.nodlckwt && mode_lt l.highbast l.rqmode
    then modify (queue_bast s i l.rqmode) i (set_highbast l.rqmode)
    else s

unfoldable pub convert_one : Pass → ℕ → Pass
convert_one p i =
    let demoted = (p.after.lkbs i).sbflags.demoted in
    let v = can_be_granted p.after i false p.after.rsb.recover_grant true in
    let l = v.after.lkbs i in
    if v.ok
    then record p {
      after = grant_lock_pending v.after i;
      grant_restart = true;
      count = p.count + 1;
    }
    else if not demoted && l.sbflags.demoted
    then record p { after = v.after; demote_restart = true }
    else if v.deadlk
    then record p { after = bast_deadlock v.after i }
    else record p {
      after = v.after;
      hi = mode_max l.rqmode p.hi;
      cw_blocked = p.cw_blocked || mode_eq l.rqmode cw;
    }

unfoldable pub convert_pass : State → Bool → ℕ → Pass
convert_pass s cw_blocked count =
    walk convert_one
      (record {
        after = s;
        hi = iv;
        cw_blocked = cw_blocked;
        grant_restart = false;
        demote_restart = false;
        count = count;
      })
      s.rsb.convertqueue

-- `finished` is false if the fuel ran out.
pub record Granted : Type 0 where
  pub after : State
  pub high : Mode
  pub cw_blocked : Bool
  pub count : ℕ
  pub finished : Bool

-- From `restart` on.
unfoldable pub convert_loop : ℕ → Bool → State → Mode → Bool → ℕ → Granted
convert_loop zero quit s high cw_blocked count = record {
  after = s;
  high = high;
  cw_blocked = cw_blocked;
  count = count;
  finished = false;
}
convert_loop (suc fuel) quit s high cw_blocked count =
    let p = convert_pass s cw_blocked count in
    let again =
      convert_loop fuel (if p.grant_restart then quit else true) p.after high p.cw_blocked
        p.count in
    if p.grant_restart || (p.demote_restart && not quit) then again else record {
      after = p.after;
      high = mode_max high p.hi;
      cw_blocked = p.cw_blocked;
      count = p.count;
      finished = true;
    }

-- A pass that restarts takes a lock off the queue or clears the request of one, or is the one
-- restart after a demotion.
abbrev pub convert_fuel : State → ℕ
convert_fuel s = suc (suc (length s.rsb.convertqueue + length s.rsb.convertqueue))

unfoldable pub grant_pending_convert : State → Mode → Bool → ℕ → Granted
grant_pending_convert s high cw_blocked count =
    convert_loop (convert_fuel s) false s high cw_blocked count

unfoldable pub wait_one : Granted → ℕ → Granted
wait_one g i =
    let v = can_be_granted g.after i false false false in
    let l = v.after.lkbs i in
    if v.ok
    then record g { after = grant_lock_pending v.after i; count = g.count + 1 }
    else record g {
      after = v.after;
      high = mode_max l.rqmode g.high;
      cw_blocked = g.cw_blocked || mode_eq l.rqmode cw;
    }

unfoldable pub grant_pending_wait : Granted → Granted
grant_pending_wait g = walk wait_one g g.after.rsb.waitqueue

unfoldable pub lock_requires_bast : Lkb → Mode → Bool → Bool
lock_requires_bast gr high cw_blocked =
    if mode_eq gr.grmode pr && cw_blocked
    then mode_lt gr.highbast ex
    else mode_lt gr.highbast high && not (modes_compat gr.grmode high)

unfoldable pub bast_granted : Mode → Bool → State → ℕ → State
bast_granted high cw_blocked s i =
    let l = s.lkbs i in
    let m = if cw_blocked && mode_eq high pr && mode_eq l.grmode pr then cw else high in
    if l.bastfn && lock_requires_bast l high cw_blocked
    then modify (queue_bast s i m) i (set_highbast high)
    else s

abbrev is_master : State → Bool
is_master s = node_eq s.rsb.res_nodeid (node 0)

unfoldable pub grant_pending_locks : State → Granted
grant_pending_locks s =
    let g = grant_pending_wait (grant_pending_convert s iv false 0) in
    if not (is_master s)
    then record { after = s; high = iv; cw_blocked = false; count = 0; finished = true }
    else if mode_eq g.high iv
    then g
    else record g { after = walk (bast_granted g.high g.cw_blocked) g.after g.after.rsb.grantqueue }

unfoldable pub modes_require_bast : Lkb → Lkb → Bool
modes_require_bast gr rq =
    if (mode_eq gr.grmode pr && mode_eq rq.rqmode cw)
      || (mode_eq gr.grmode cw && mode_eq rq.rqmode pr)
    then mode_lt gr.highbast ex
    else mode_lt gr.highbast rq.rqmode && not (modes_compat gr.grmode rq.rqmode)

unfoldable pub bast_one : ℕ → State → ℕ → State
bast_one i s gr =
    let rqmode = (s.lkbs i).rqmode in
    if gr == i
    then s
    else if (s.lkbs gr).bastfn && modes_require_bast (s.lkbs gr) (s.lkbs i)
    then modify (queue_bast s gr rqmode) gr (set_highbast rqmode)
    else s

unfoldable pub send_bast_queue : State → List ℕ → ℕ → State
send_bast_queue s head i = walk (bast_one i) s head

unfoldable pub send_blocking_asts : State → ℕ → State
send_blocking_asts s i = send_bast_queue s s.rsb.grantqueue i

unfoldable pub send_blocking_asts_all : State → ℕ → State
send_blocking_asts_all s i =
    let t = send_bast_queue s s.rsb.grantqueue i in send_bast_queue t t.rsb.convertqueue i
