-- ===== src/Receive/Copies/Alternate.antt =====
-- A conversion that the master grants at once in the alternate mode: fs/dlm/lock.c 2256-2309,
-- 2964-3024 and 4487-4529. `__receive_convert_reply` does not look at DLM_SBF_ALTMODE.
use lockify.Base.{ℕ, ◌≡◌, refl, sym, subst, true, false, not, ◌&&◌, ==-refl, arith, some}
use lockify.Modes.{Mode, iv, pr, mode_eq}
use lockify.State.Events.{LkSts, Errno}
use lockify.State.{State, modify, can_be_queued}
use lockify.State.Set.{set_rqmode, set_altmode}
use lockify.Grant.{can_be_granted, grantable, conversion_deadlock_detect, try_alt, alt_mode}
use lockify.Op.{grant_now, do_convert}
use lockify.Send.{convert_replied}
use lockify.Receive.Copies.{Shows, Asks, now-After}
use lockify.Receive.Copies.Agree.{convert_answer, granted_copy}

-- A conversion with ALTPR that cannot be granted, without a deadlock, but can be as PR.
pub record IsAlternated (t : State) (j : ℕ) : Type 0 where
  pub blocked : grantable t j true false ≡ false
  pub no_deadlock : conversion_deadlock_detect t j ≡ false
  pub altpr : (t.lkbs j).exflags.altpr ≡ true
  pub not_pr : mode_eq (t.lkbs j).rqmode pr ≡ false
  pub fits : grantable (modify t j (set_rqmode pr)) j true false ≡ true

alt-pr : (t : State) (j : ℕ) → IsAlternated t j → alt_mode (t.lkbs j) ≡ some pr
unfolding alt_mode
alt-pr t j a = ground (arith, a.altpr, a.not_pr)

verdict :
    (t : State) (j : ℕ)
    → IsAlternated t j
    → can_be_granted t j true false true
      ≡ record { after = modify t j (set_altmode pr); ok = true; deadlk = false }
unfolding can_be_granted try_alt
verdict t j a = rw (a.blocked, undetected, alt-pr t j a, try_alt, a.fits) refl
  where
    undetected :
        (not (mode_eq (t.lkbs j).grmode iv)
          && can_be_queued (t.lkbs j)
          && conversion_deadlock_detect t j)
        ≡ false
    undetected = ground (arith, a.no_deadlock)

granted_alternate :
    (t : State) (j : ℕ)
    → IsAlternated t j
    → do_convert t j ≡ grant_now (modify t j (set_altmode pr)) j
unfolding do_convert
granted_alternate t j a = rw (verdict t j a, do_convert) refl

altered-Asks :
    (t : State) (j : ℕ) (g m : Mode) → Asks t j g m → Asks (modify t j (set_altmode pr)) j g pr
unfolding set_altmode
altered-Asks t j g m v = record {
  holds = rw (==-refl j) v.holds;
  asks = rw (==-refl j) refl;
  granted = rw (==-refl j) v.granted;
}

-- If a conversion with ALTPR cannot be granted, is in no deadlock and can be granted as PR, the
-- master's copy of the lock holds PR after do_convert, and the owner's copy, after the reply,
-- the mode that was asked for.
pub do_convert-alternate :
    (s t : State) (i j : ℕ) (g m : Mode)
    → Asks s i g m
    → Asks t j g m
    → IsAlternated t j
    → Shows (do_convert t j).0 j pr LkSts.granted
      × Shows (convert_replied s i (convert_answer t j) false (do_convert t j).1) i m LkSts.granted
do_convert-alternate s t i j g m v w a =
    let u = modify t j (set_altmode pr) in
    (
      subst (λ (r : State × Errno). Shows r.0 j pr LkSts.granted) (sym (granted_alternate t j a))
          (now-After u j g pr (altered-Asks t j g m w)),
      subst
          (λ (r : State × Errno).
            Shows (convert_replied s i (convert_answer t j) false r.1) i m LkSts.granted)
          (sym (granted_alternate t j a)) (granted_copy s i g m (convert_answer t j) v),
    )
