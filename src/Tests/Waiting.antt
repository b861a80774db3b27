-- ===== src/Tests/Waiting.antt =====
-- Tests of the count of outstanding replies.
use lockify.Base.{◌≡◌, refl, true, false, some, [], ◌∷◌, arith, elem, update}
use lockify.Modes.{pr}
use lockify.State.{State}
use lockify.State.Events.{node, convert_msg, convert_reply, unlock, notify_reply}
use lockify.Waiters.{add_to_waiters, remove_waiter}
use lockify.Waiters.Count.{IsCounted, add_to_waiters-IsCounted, remove_waiter-IsCounted}
use lockify.Waiters.Twice.{remove_waiter-twice}
use lockify.Tests.{start, holding}

-- Lock 1 waits for the reply to a conversion.
abbrev waits : State
waits = record start {
  lkbs =
      update start.lkbs 1
        (record (holding pr) { wait_type = some convert_msg; wait_count = 1; ref = 3 });
  waiters = 1 ∷ [];
}

waits-IsCounted : IsCounted waits
unfolding elem
waits-IsCounted = record {
  exact = λ j. ground arith;
  listed = λ j. ground arith;
  held = λ j. ground arith;
  sound = refl;
}

add_to_waiters-IsCounted_example : IsCounted (add_to_waiters waits 1 unlock (node 2)).0
add_to_waiters-IsCounted_example = add_to_waiters-IsCounted waits 1 unlock (node 2) waits-IsCounted

remove_waiter-IsCounted_example : IsCounted (remove_waiter waits 1 convert_reply true).0
remove_waiter-IsCounted_example =
    remove_waiter-IsCounted waits 1 convert_reply true (λ e. refl) waits-IsCounted

remove_waiter-twice_example : (remove_waiter waits 2 notify_reply false).0.bug ≡ true
remove_waiter-twice_example = remove_waiter-twice waits 2 false waits-IsCounted refl refl
