-- ===== src/Tests/Glock.antt =====
-- Tests of the glocks of gfs2.
use lockify.Base.{ℕ, ◌≡◌, refl, true, false, some, none, [], ◌∷◌, subst, not, ◌||◌}
use lockify.Glock.Good.{all_wait}
use lockify.Modes.{ex, modes_compat, quecvt_compat}
use lockify.Glock.Dlm.{
  DlmGlock, GfsFlags, SbStatus, make_mode, make_flags, gdlm_lock, ast_ret, gdlm_ast, bast_state,
}
use lockify.Glock.Requests.{requested, gdlm_lock-accepted}
use lockify.Glock.Replies.{decode, said, gdlm_ast-decode, bast_state-modes_compat}
use lockify.Glock.{exclusive}
use lockify.Glock.{
  out_state, shared, unlocked, no_error, Holder, Glock, World, new_glock, glock_blocked_by_withdraw,
}
use lockify.Glock.Promote.{
  may_share, granted, holder_wake, state_change, do_promote, promote, may_grant, may_grant_first,
  find_first_holder, find_first_waiter, do_error, kept, taken_off,
}
use lockify.Glock.Machine.{
  finish_xmote, retarget, reached, handle_callback, run_queue, serve_queue, serve_demote, do_xmote,
  sync_and_ask, skip_inval, ask, note_request, prepare_inval,
}
use lockify.Glock.Queue.{
  should_freeze, take_reply, demote_in_time, unfreeze, add_to_queue, recursive, some_wait, glock_nq,
  glock_cb, glock_complete, glock_work,
}
use lockify.Glock.Safety.{Step, Reach, Reach-all_share}
use lockify.Glock.Share.{all_share, all_covered}
use lockify.Glock.Held.{Reach-gl_state}

abbrev reader : ℕ → Holder
reader n = record {
  gh = n;
  owner_pid = n;
  gh_state = shared;
  try = false;
  noexp = false;
  any = false;
  notify = false;
  node_scope = false;
  async = false;
  exact = false;
  nopid = false;
  nocache = false;
  holder = false;
  wait = false;
  gh_error = no_error;
}

abbrev world : World
world = record {
  withdrawn = false;
  withdrawn_meanwhile = false;
  log_error = false;
  nondisk = false;
  own_journal = false;
  withdraw_recovery = false;
  system_glock = false;
  has_inval = true;
  sync_fails = false;
  xmote_bh = 0;
  skip_dlm_unlock = false;
  lm_lock_einval = false;
  lm_lock_fails = false;
  inode = false;
  flock = false;
  may_demote = false;
  block_locks = false;
  jiffies = 50;
  hold_decr = 5;
}

-- Reader 1 comes and the lock manager is asked for a shared lock; reader 2 comes; the lock manager
-- answers; the work runs, and both have the glock.
abbrev first : Glock
first = record (new_glock 7 20) {
  gl_target = shared;
  gl_req = shared;
  flag_lock = true;
  flag_blocking = true;
  gl_holders = record (reader 1) { wait = true } ∷ [];
  count = 2;
  asked = some shared;
}

abbrev second : Glock
second = record first {
  gl_holders = record (reader 1) { wait = true } ∷ record (reader 2) { wait = true } ∷ [];
}

abbrev replied : Glock
replied = record second {
  gl_reply = 3;
  count = 3;
  queued = true;
  flag_reply_pending = true;
  asked = none;
}

abbrev both : Glock
both = record replied {
  gl_state = shared;
  flag_lock = false;
  flag_reply_pending = false;
  gl_tchange = 50;
  gl_holders = record (reader 1) { holder = true } ∷ record (reader 2) { holder = true } ∷ [];
  count = 2;
  queued = false;
}

nq_first : (glock_nq (new_glock 7 20) (reader 1) world).0 ≡ first
unfolding glock_nq glock_blocked_by_withdraw unfreeze add_to_queue recursive some_wait run_queue
    serve_queue serve_demote do_promote promote may_grant may_grant_first find_first_holder
    find_first_waiter do_error kept taken_off do_xmote sync_and_ask skip_inval ask note_request
    prepare_inval
nq_first = refl

nq_second : (glock_nq first (reader 2) world).0 ≡ second
unfolding glock_nq glock_blocked_by_withdraw unfreeze add_to_queue recursive some_wait run_queue
nq_second = refl

complete_answered : glock_complete second 3 world ≡ replied
unfolding glock_complete should_freeze
complete_answered = refl

work_both : glock_work replied world world ≡ both
unfolding glock_work take_reply finish_xmote out_state retarget state_change reached demote_in_time
    run_queue serve_queue do_promote promote may_grant may_grant_first may_share granted holder_wake
    find_first_holder find_first_waiter do_error kept taken_off
work_both = refl

reached_both : Reach (new_glock 7 20) both
reached_both =
    Reach.later
      (Reach.later
        (Reach.later
          (Reach.later Reach.start
            (subst (λ x. Step (new_glock 7 20) x) nq_first (Step.nq (reader 1) world refl)))
          (subst (λ x. Step first x) nq_second (Step.nq (reader 2) world refl)))
        (subst (λ x. Step second x) complete_answered (Step.complete 3 world refl)))
      (subst (λ x. Step replied x) work_both (Step.work world world))

Reach-all_share_example :
    all_share both.gl_holders ≡ true × all_covered both.gl_state both.gl_holders ≡ true
Reach-all_share_example = Reach-all_share 7 20 reached_both

-- Another node wants the glock for itself.
abbrev wanted : Glock
wanted = record both { flag_demote = true; gl_demote_state = unlocked; count = 3; queued = true }

cb_wanted : glock_cb both unlocked world ≡ wanted
unfolding glock_cb handle_callback
cb_wanted = refl

Reach-gl_state_example : (glock_work wanted world world).gl_state ≡ wanted.gl_state
unfolding all_wait
Reach-gl_state_example =
    Reach-gl_state 7 20
      (Reach.later reached_both (subst (λ x. Step both x) cb_wanted (Step.cb unlocked world)))
      (Step.work world world) refl

-- The glock as a lock of dlm, and a request for it alone.
abbrev held : DlmGlock
held = record {
  glock = both;
  initial = true;
  lksb = record { sb_lkid = 7; sb_lvbptr = some (65 ∷ []) };
}

abbrev asks : GfsFlags
asks = record { try = false; try_1cb = false; any = false; notify = true }

gdlm_lock-accepted_example :
    gdlm_lock (requested held exclusive asks) exclusive asks 9
      ≡ some (record {
        flags = make_flags (requested held exclusive asks) asks exclusive;
        astparam = 9;
        bast = true;
        mode = make_mode exclusive;
        lksb = held.lksb;
      })
    × (not (make_flags (requested held exclusive asks) asks exclusive).quecvt
        || quecvt_compat (make_mode both.gl_state) (make_mode exclusive))
      ≡ true
gdlm_lock-accepted_example = gdlm_lock-accepted held exclusive asks 9 refl

abbrev canceled : DlmGlock
canceled = record held {
  glock = record both { gl_reply = 11; count = 3; queued = true; flag_reply_pending = true };
}

ast_canceled : gdlm_ast held SbStatus.ecancel false world ≡ some canceled
unfolding gdlm_ast ast_ret glock_complete should_freeze
ast_canceled = refl

gdlm_ast-decode_example : decode canceled.glock.gl_reply ≡ said both SbStatus.ecancel false
gdlm_ast-decode_example = gdlm_ast-decode held canceled SbStatus.ecancel false world ast_canceled

bast_ex : bast_state ex ≡ some unlocked
unfolding bast_state
bast_ex = refl

bast_state-modes_compat_example : modes_compat (make_mode unlocked) ex ≡ true
bast_state-modes_compat_example = bast_state-modes_compat ex unlocked bast_ex
