-- ===== src/Args/Checks.antt =====
-- What the checks on the arguments let through: fs/dlm/lock.c 2624-2917.
use lockify.Base.{
  ℕ, ◌≡◌, subst, Bool, true, false, not, ◌&&◌, ◌||◌, Option, none, some, if◌then◌else◌, arith,
  Bool-cases, inl, inr,
}
use lockify.Modes.{Mode, nl}
use lockify.State.Flags.{LkFlags, not_for_unlock}
use lockify.Args.{
  IntMode, Lksb, LockArgs, UnlockArgs, set_lock_args, valid_mode, flags_refused, lksb_refused,
  set_unlock_args,
}

-- The arguments of an accepted lock call.
pub record IsChecked (a : LockArgs) : Type 0 where
  pub expedite_nl : a.flags.expedite ≡ true → a.mode ≡ nl
  pub expedite_alone :
      a.flags.expedite ≡ true
      → (a.flags.convert ≡ false) × (a.flags.quecvt ≡ false) × (a.flags.noqueue ≡ false)
  pub queue_converts : a.flags.quecvt || a.flags.convdeadlk ≡ true → a.flags.convert ≡ true
  pub no_cancel : a.flags.cancel ≡ false

kept-IsChecked :
    (f : LkFlags) (m : Mode) (n : ℕ) (astparam : ℕ) (bast : Bool) (sb : Lksb)
    → flags_refused f m n ≡ false
    → IsChecked (record { flags = f; astparam = astparam; bast = bast; mode = m; lksb = sb })
unfolding flags_refused
kept-IsChecked f m n astparam bast sb h = record {
  expedite_nl = λ x. ground arith;
  expedite_alone = λ x. (ground arith, ground arith, ground arith);
  queue_converts = λ x. ground arith;
  no_cancel = ground arith;
}

accepted : (b : Bool) (r a : LockArgs) → (if b then none else some r) ≡ some a → r ≡ a
accepted true r a e = cc
accepted false r a e = cc

-- Whatever set_lock_args accepts is checked: an expedited request is for NL, comes without
-- CONVERT, QUECVT and NOQUEUE; QUECVT and CONVDEADLK come with CONVERT only; and CANCEL is
-- refused.
pub set_lock_args-IsChecked :
    (mode : IntMode) (lksb : Option Lksb) (f : LkFlags) (n : ℕ) (ast : Bool) (astparam : ℕ)
    → (bast : Bool) (a : LockArgs) → set_lock_args mode lksb f n ast astparam bast ≡ some a
    → IsChecked a
unfolding set_lock_args
set_lock_args-IsChecked mode lksb f n ast astparam bast a h = by_mode (valid_mode mode) lksb h
  where
    by_mode :
        (m : Option Mode) (sb : Option Lksb)
        → elim m as (λ _. Option LockArgs) [
          | none ↦ none
          | some m ↦ elim sb [
            | none ↦ none
            | some sb ↦
                if flags_refused f m n || not ast || lksb_refused f sb
                then none
                else some
                    (record { flags = f; astparam = astparam; bast = bast; mode = m; lksb = sb })
          ]
        ]
          ≡ some a
        → IsChecked a
    by_mode none sb e = cc
    by_mode (some m) none e = cc
    by_mode (some m) (some sb) e = elim (Bool-cases (flags_refused f m n)) [
      | inl bad ↦ absurd (ground arith)
      | inr good ↦
          subst IsChecked (accepted (flags_refused f m n || not ast || lksb_refused f sb) _ a e)
            (kept-IsChecked f m n astparam bast sb good)
    ]

-- No flag that `set_unlock_args` accepts skips the check for conflicts, and CANCEL and FORCEUNLOCK
-- do not come together.
pub record IsUnlockChecked (a : UnlockArgs) : Type 0 where
  pub not_expedite : a.flags.expedite ≡ false
  pub not_both : a.flags.cancel && a.flags.forceunlock ≡ false

-- Whatever set_unlock_args accepts has no EXPEDITE, and not both of CANCEL and FORCEUNLOCK.
pub set_unlock_args-IsUnlockChecked :
    (f : LkFlags) (astarg : ℕ) (a : UnlockArgs)
    → set_unlock_args f astarg ≡ some a
    → IsUnlockChecked a
unfolding set_unlock_args
set_unlock_args-IsUnlockChecked f astarg a h =
    elim (Bool-cases (not_for_unlock f || (f.cancel && f.forceunlock))) [
      | inl bad ↦ absurd (ground arith)
      | inr good ↦
          subst IsUnlockChecked (kept _ a h)
            (record { not_expedite = ground arith; not_both = ground arith })
    ]
  where
    kept :
        (b : Bool) (a : UnlockArgs)
        → (if b then none else some (record { flags = f; astparam = astarg })) ≡ some a
        → record { flags = f; astparam = astarg } ≡ a
    kept true a e = cc
    kept false a e = cc
