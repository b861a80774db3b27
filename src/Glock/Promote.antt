-- ===== src/Glock/Promote.antt =====
-- Who has a glock: fs/gfs2/glock.c 188-213, 251-262 and 324-562.
use lockify.Base.{
  ℕ, ◌+◌, ◌-◌, Bool, true, false, not, ◌&&◌, ◌||◌, List, [], ◌∷◌, ◌++◌, Option, none, some,
  if◌then◌else◌, ltb,
}
use lockify.Glock.{
  LmState, unlocked, exclusive, deferred, shared, eio, try_failed, same, is_error, Holder, Glock,
  World, bug_on,
}

-- `may_grant` beside a holder that has the glock.
unfoldable pub may_share : Holder → Holder → Bool
may_share current gh = elim current.gh_state [
  | exclusive ↦ same gh.gh_state exclusive && current.node_scope && gh.node_scope
  | shared ↦ same gh.gh_state current.gh_state
  | deferred ↦ same gh.gh_state current.gh_state
  | unlocked ↦ false
]

-- `may_grant` where nobody has it.
unfoldable pub may_grant_first : LmState → Holder → Bool
may_grant_first state gh =
    if same state gh.gh_state
    then true
    else if gh.exact
    then false
    else if same state exclusive
    then same gh.gh_state shared || same gh.gh_state deferred
    else if gh.any
    then not (same state unlocked)
    else false

unfoldable pub may_grant : LmState → Option Holder → Holder → Bool
may_grant state none gh = may_grant_first state gh
may_grant state (some current) gh = may_share current gh

unfoldable pub holder_wake : Holder → Holder
holder_wake gh = record gh { wait = false }

-- `do_error` on the holders: those that keep their place.
abbrev fails : ℕ → Holder → Bool
fails ret gh = not gh.holder && (is_error ret || gh.try)

unfoldable pub kept : ℕ → List Holder → List Holder
kept ret [] = []
kept ret (gh ∷ rest) = if fails ret gh then kept ret rest else gh ∷ kept ret rest

-- And those that are taken off, woken with an error.
abbrev failed : ℕ → Holder → Holder
failed ret gh = holder_wake (record gh { gh_error = if is_error ret then eio else try_failed })

unfoldable pub taken_off : ℕ → List Holder → List Holder
taken_off ret [] = []
taken_off ret (gh ∷ rest) =
    if fails ret gh then failed ret gh ∷ taken_off ret rest else taken_off ret rest

unfoldable pub do_error : Glock → ℕ → Glock
do_error gl ret = record gl {
  gl_holders = kept ret gl.gl_holders;
  done = gl.done ++ taken_off ret gl.gl_holders;
}

unfoldable pub find_first_holder : List Holder → Option Holder
find_first_holder [] = none
find_first_holder (gh ∷ rest) = if gh.holder then some gh else none

unfoldable pub find_first_waiter : List Holder → Option Holder
find_first_waiter [] = none
find_first_waiter (gh ∷ rest) = if gh.holder then find_first_waiter rest else some gh

unfoldable pub granted : Holder → Holder
granted gh = holder_wake (record gh { holder = true })

abbrev current_or : Option Holder → Holder → Option Holder
current_or none gh = some gh
current_or (some current) gh = some current

-- The loop of `do_promote`, and whether it stopped at a holder that may not have the glock.
unfoldable pub promote : LmState → Option Holder → List Holder → List Holder × Bool
promote state current [] = ([], false)
promote state current (gh ∷ rest) =
    let held = promote state current rest in
    let after = promote state (current_or current (granted gh)) rest in
    if gh.holder
    then (gh ∷ held.0, held.1)
    else if may_grant state current gh
    then (granted gh ∷ after.0, after.1)
    else (gh ∷ rest, true)

-- The first of the list may not have the glock.
abbrev pub blocked_at_head : LmState → List Holder → Bool
blocked_at_head state [] = false
blocked_at_head state (gh ∷ rest) = not gh.holder && not (may_grant_first state gh)

unfoldable pub do_promote : Glock → Glock × Bool
do_promote gl =
    let r = promote gl.gl_state (find_first_holder gl.gl_holders) gl.gl_holders in
    let t = record gl { gl_holders = r.0 } in
    if blocked_at_head gl.gl_state gl.gl_holders
    then (gl, false)
    else (if r.1 then do_error t 0 else t, true)

abbrev max : ℕ → ℕ → ℕ
max a b = if ltb a b then b else a

-- The reference that a lock holds on its glock.
abbrev recount : Bool → Bool → ℕ → ℕ
recount true false n = n - 1
recount false true n = n + 1
recount _ _ n = n

unfoldable pub state_change : Glock → LmState → World → Glock
state_change gl new_state w = record gl {
  count = recount (not (same gl.gl_state unlocked)) (not (same new_state unlocked)) gl.count;
  gl_hold_time =
      if same new_state gl.gl_target
      then gl.gl_hold_time
      else max (gl.gl_hold_time - w.hold_decr) 10;
  gl_state = new_state;
  gl_tchange = w.jiffies;
}

abbrev pub set_demote : Glock → Glock
set_demote gl = record gl { flag_demote = true }

abbrev pub demote_wake : Glock → Glock
demote_wake gl = record gl { gl_demote_state = exclusive; flag_demote = false }

-- `__gfs2_glock_queue_work`, which passes a reference on.
abbrev pub queue_work : Glock → Glock
queue_work gl =
    if gl.queued
    then bug_on (ltb gl.count 2) (record gl { count = gl.count - 1 })
    else record gl { queued = true }

abbrev pub hold_glock : Glock → Glock
hold_glock gl = record gl { count = gl.count + 1 }

unfoldable pub demote_ok : Glock → World → Bool
demote_ok gl w =
    if same gl.gl_state unlocked
    then false
    else elim gl.gl_holders [ [] ↦ w.may_demote | _ ↦ false ]
