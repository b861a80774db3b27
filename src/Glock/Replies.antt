-- ===== src/Glock/Replies.antt =====
-- What gfs2 makes of the answers and callbacks of dlm: fs/gfs2/lock_dlm.c 119-188.
use lockify.Base.{
  ℕ, ◌+◌, ◌-◌, ◌%◌, ◌≡◌, refl, sym, ap, ◌∙◌, Bool, true, false, ◌&&◌, Option, none, some,
  if◌then◌else◌, ltb, arith,
}
use lockify.Modes.{Mode, modes_compat}
use lockify.Glock.{
  LmState, unlocked, exclusive, deferred, shared, number, Glock, World, bug_on, out_state,
  is_canceled, is_error,
}
use lockify.Glock.Promote.{queue_work, hold_glock}
use lockify.Glock.Queue.{should_freeze, glock_complete}
use lockify.Glock.Dlm.{DlmGlock, SbStatus, make_mode, alt_state, ast_ret, gdlm_ast, bast_state}

-- The answer that the glock has taken, decoded as `finish_xmote` does.
abbrev pub decode : ℕ → LmState × Bool × Bool
decode n = (out_state n, is_canceled n, is_error n)

-- What dlm said: the state that the glock is in now, and whether the request was cancelled or failed.
pub said : Glock → SbStatus → Bool → LmState × Bool × Bool
said gl SbStatus.ok altmode = (alt_state altmode gl.gl_req, false, false)
said gl SbStatus.ecancel altmode = (gl.gl_state, true, false)
said gl SbStatus.etimedout altmode = (gl.gl_state, false, true)
said gl _ altmode = (gl.gl_state, false, false)

plain-decoded : (st : LmState) → decode (number st % 256) ≡ (st, false, false)
unfolding out_state
plain-decoded unlocked = refl
plain-decoded exclusive = refl
plain-decoded deferred = refl
plain-decoded shared = refl

canceled-decoded : (st : LmState) → decode ((number st + 8) % 256) ≡ (st, true, false)
unfolding out_state
canceled-decoded unlocked = refl
canceled-decoded exclusive = refl
canceled-decoded deferred = refl
canceled-decoded shared = refl

failed-decoded : (st : LmState) → decode ((number st + 4) % 256) ≡ (st, false, true)
unfolding out_state
failed-decoded unlocked = refl
failed-decoded exclusive = refl
failed-decoded deferred = refl
failed-decoded shared = refl

ast_ret-decoded :
    (gl : Glock) (status : SbStatus) (altmode : Bool)
    → decode (ast_ret gl status altmode % 256) ≡ said gl status altmode
unfolding ast_ret said
ast_ret-decoded gl SbStatus.ok altmode = plain-decoded (alt_state altmode gl.gl_req)
ast_ret-decoded gl SbStatus.ecancel altmode = canceled-decoded gl.gl_state
ast_ret-decoded gl SbStatus.etimedout altmode = failed-decoded gl.gl_state
ast_ret-decoded gl SbStatus.eunlock altmode = plain-decoded gl.gl_state
ast_ret-decoded gl SbStatus.eagain altmode = plain-decoded gl.gl_state
ast_ret-decoded gl SbStatus.edeadlk altmode = plain-decoded gl.gl_state

glock_complete-gl_reply :
    (gl : Glock) (n : ℕ) (w : World) → (glock_complete gl n w).gl_reply ≡ n % 256
unfolding glock_complete
glock_complete-gl_reply gl n w =
    let t = record gl { gl_reply = n % 256; asked = none } in
    by_freeze (w.block_locks && should_freeze t)
  where
    frozen : Glock
    frozen = record gl { gl_reply = n % 256; asked = none; flag_frozen = true }

    u : Glock
    u = hold_glock (record gl { gl_reply = n % 256; asked = none; flag_reply_pending = true })

    by_queued :
        (b : Bool)
        → (if b
            then bug_on (ltb u.count 2) (record u { count = u.count - 1 })
            else record u { queued = true }).gl_reply
          ≡ n % 256
    by_queued true = refl
    by_queued false = refl

    by_freeze : (b : Bool) → (if b then frozen else queue_work u).gl_reply ≡ n % 256
    by_freeze true = refl
    by_freeze false = by_queued u.queued

abbrev reply_of : Option DlmGlock → ℕ
reply_of none = 0
reply_of (some d) = d.glock.gl_reply

completed-decode :
    (d : DlmGlock) (status : SbStatus) (altmode : Bool) (w : World)
    → decode (glock_complete d.glock (ast_ret d.glock status altmode) w).gl_reply
      ≡ said d.glock status altmode
completed-decode d status altmode w =
    ap decode (glock_complete-gl_reply d.glock (ast_ret d.glock status altmode) w)
    ∙ ast_ret-decoded d.glock status altmode

kept-decode :
    (d e : DlmGlock) (status : SbStatus) (altmode : Bool) (w : World) (x : DlmGlock)
    → x.glock ≡ glock_complete d.glock (ast_ret d.glock status altmode) w
    → some x ≡ some e
    → decode e.glock.gl_reply ≡ said d.glock status altmode
kept-decode d e status altmode w x c h =
    ap (λ (o : Option DlmGlock). decode (reply_of o)) (sym h)
    ∙ ap (λ (gl : Glock). decode gl.gl_reply) c
    ∙ completed-decode d status altmode w

-- Unless the glock is freed, the answer that gdlm_ast hands to the glock, cut to eight bits, is
-- decoded by finish_xmote as what dlm said: the requested or the alternate state on success and
-- otherwise the state that the glock has, cancelled only for a cancel, and an error only for a
-- timeout.
pub gdlm_ast-decode :
    (d e : DlmGlock) (status : SbStatus) (altmode : Bool) (w : World)
    → gdlm_ast d status altmode w ≡ some e
    → decode e.glock.gl_reply ≡ said d.glock status altmode
unfolding gdlm_ast
gdlm_ast-decode d e SbStatus.eunlock altmode w h = cc
gdlm_ast-decode d e SbStatus.ok altmode w h = kept-decode d e SbStatus.ok altmode w _ refl h
gdlm_ast-decode d e SbStatus.ecancel altmode w h =
    kept-decode d e SbStatus.ecancel altmode w _ refl h
gdlm_ast-decode d e SbStatus.eagain altmode w h = kept-decode d e SbStatus.eagain altmode w _ refl h
gdlm_ast-decode d e SbStatus.edeadlk altmode w h =
    kept-decode d e SbStatus.edeadlk altmode w _ refl h
gdlm_ast-decode d e SbStatus.etimedout altmode w h =
    kept-decode d e SbStatus.etimedout altmode w _ refl h

-- If gdlm_bast takes a blocking callback for a mode, the mode of the state that it asks the
-- glock to go to is compatible with that mode.
pub bast_state-modes_compat :
    (mode : Mode) (st : LmState)
    → bast_state mode ≡ some st
    → modes_compat (make_mode st) mode ≡ true
unfolding bast_state modes_compat make_mode
bast_state-modes_compat mode st h = ground (arith, h)
