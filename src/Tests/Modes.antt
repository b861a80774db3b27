-- ===== src/Tests/Modes.antt =====
-- Tests of the tables and of the checks on the arguments.
use lockify.Base.{◌≡◌, refl, true, some}
use lockify.Modes.{nl, pr, ex, pw, is_down, quecvt_compat}
use lockify.State.Flags.{LkFlags, no_flags}
use lockify.Args.{natural, valid_mode, flags_refused, lksb_refused, set_lock_args}
use lockify.Args.Checks.{IsChecked, set_lock_args-IsChecked}
use lockify.Tests.{args}

pw_pr-is_down : is_down pw pr ≡ true
unfolding is_down
pw_pr-is_down = refl

pr_ex-quecvt_compat : quecvt_compat pr ex ≡ true
unfolding quecvt_compat
pr_ex-quecvt_compat = refl

abbrev expedite : LkFlags
expedite = record no_flags { expedite = true }

expedite-accepted :
    set_lock_args (natural 0) (some (args nl expedite).lksb) expedite 5 true 0 true
    ≡ some (args nl expedite)
unfolding set_lock_args valid_mode flags_refused lksb_refused
expedite-accepted = refl

set_lock_args-IsChecked_example : IsChecked (args nl expedite)
set_lock_args-IsChecked_example =
    set_lock_args-IsChecked (natural 0) (some (args nl expedite).lksb) expedite 5 true 0 true
      (args nl expedite) expedite-accepted
