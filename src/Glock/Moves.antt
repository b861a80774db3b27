-- ===== src/Glock/Moves.antt =====
-- Holders that come and go leave a queue in order: fs/gfs2/glock.c 589-594, 1520-1530 and 1618.
use lockify.Base.{ℕ, ◌≡◌, refl, true, not, ◌&&◌, List, [], ◌∷◌, ◌++◌, arith}
use lockify.Glock.{LmState, unlocked, same, Holder}
use lockify.Glock.Promote.{holder_wake}
use lockify.Glock.Machine.{waiter_to_tail, wake_waiter}
use lockify.Glock.Queue.{remove_holder}
use lockify.Glock.Good.{
  share, covers, all_wait, follow, exact_states, in_order, all_wait-follow, all_wait-in_order,
}

-- One that shares with the first and has the glock can be the first.
pub share-follow :
    (a b : Holder) (hs : List Holder) → share a b ≡ true → follow a hs ≡ true → follow b hs ≡ true
unfolding follow
share-follow a b [] s h = refl
share-follow a b (x ∷ hs) s h = ground (arith, s, h, share-follow a b hs)

pub remove_holder-all_wait :
    (n : ℕ) (hs : List Holder) → all_wait hs ≡ true → all_wait (remove_holder n hs) ≡ true
unfolding remove_holder all_wait
remove_holder-all_wait n [] h = refl
remove_holder-all_wait n (x ∷ hs) h = ground (arith, h, remove_holder-all_wait n hs)

remove_holder-follow :
    (n : ℕ) (c : Holder) (hs : List Holder)
    → follow c hs ≡ true
    → follow c (remove_holder n hs) ≡ true
unfolding remove_holder follow
remove_holder-follow n c [] h = refl
remove_holder-follow n c (x ∷ hs) h =
    ground
      (arith, h, remove_holder-follow n c hs, remove_holder-all_wait n hs, all_wait-follow c hs)

pub covers-share :
    (st : LmState) (a b : Holder) → covers st a ≡ true → share a b ≡ true → covers st b ≡ true
covers-share st a b c s = ground (arith, c, s)

-- Without its first a queue in order is in order.
follow-in_order :
    (st : LmState) (a : Holder) (hs : List Holder)
    → covers st a ≡ true
    → follow a hs ≡ true
    → in_order st hs ≡ true
unfolding follow in_order
follow-in_order st a [] c h = refl
follow-in_order st a (x ∷ hs) c h = ground (arith, c, h, covers-share st a x c, share-follow a x hs)

pub remove_holder-in_order :
    (n : ℕ) (st : LmState) (hs : List Holder)
    → in_order st hs ≡ true
    → in_order st (remove_holder n hs) ≡ true
unfolding remove_holder in_order
remove_holder-in_order n st [] h = refl
remove_holder-in_order n st (x ∷ hs) h = ground (
  arith,
  h,
  remove_holder-follow n x hs,
  remove_holder-all_wait n hs,
  all_wait-in_order st hs,
  follow-in_order st x hs,
)

pub remove_holder-exact_states :
    (n : ℕ) (hs : List Holder) → exact_states hs ≡ true → exact_states (remove_holder n hs) ≡ true
unfolding remove_holder exact_states
remove_holder-exact_states n [] h = refl
remove_holder-exact_states n (x ∷ hs) h = ground (arith, h, remove_holder-exact_states n hs)

-- One that waits may come last.
pub last-all_wait :
    (hs : List Holder) (gh : Holder)
    → all_wait hs ≡ true
    → not gh.holder ≡ true
    → all_wait (hs ++ gh ∷ []) ≡ true
unfolding all_wait
last-all_wait [] gh h w = ground (arith, w)
last-all_wait (x ∷ hs) gh h w = ground (arith, h, w, last-all_wait hs gh)

last-follow :
    (c : Holder) (hs : List Holder) (gh : Holder)
    → follow c hs ≡ true
    → not gh.holder ≡ true
    → follow c (hs ++ gh ∷ []) ≡ true
unfolding follow all_wait
last-follow c [] gh h w = ground (arith, w)
last-follow c (x ∷ hs) gh h w = ground (arith, h, w, last-follow c hs gh, last-all_wait hs gh)

pub last-in_order :
    (st : LmState) (hs : List Holder) (gh : Holder)
    → in_order st hs ≡ true
    → not gh.holder ≡ true
    → in_order st (hs ++ gh ∷ []) ≡ true
unfolding in_order all_wait
last-in_order st [] gh h w = ground (arith, w)
last-in_order st (x ∷ hs) gh h w = ground (arith, h, w, last-follow x hs gh, last-all_wait hs gh)

pub last-exact_states :
    (hs : List Holder) (gh : Holder)
    → exact_states hs ≡ true
    → not gh.any && not (same gh.gh_state unlocked) ≡ true
    → exact_states (hs ++ gh ∷ []) ≡ true
unfolding exact_states
last-exact_states [] gh h w = ground (arith, w)
last-exact_states (x ∷ hs) gh h w = ground (arith, h, w, last-exact_states hs gh)

pub waiter_to_tail-all_wait :
    (hs : List Holder) → all_wait hs ≡ true → all_wait (waiter_to_tail hs) ≡ true
unfolding all_wait waiter_to_tail
waiter_to_tail-all_wait [] h = refl
waiter_to_tail-all_wait (x ∷ hs) h = ground (arith, h, last-all_wait hs x)

pub waiter_to_tail-exact_states :
    (hs : List Holder) → exact_states hs ≡ true → exact_states (waiter_to_tail hs) ≡ true
unfolding exact_states waiter_to_tail
waiter_to_tail-exact_states [] h = refl
waiter_to_tail-exact_states (x ∷ hs) h =
    ground (arith, h, waiter_to_tail-exact_states hs, last-exact_states hs x)

pub wake_waiter-all_wait :
    (hs : List Holder) → all_wait hs ≡ true → all_wait (wake_waiter hs) ≡ true
unfolding all_wait wake_waiter holder_wake
wake_waiter-all_wait [] h = refl
wake_waiter-all_wait (x ∷ hs) h = ground (arith, h)

pub wake_waiter-exact_states :
    (hs : List Holder) → exact_states hs ≡ true → exact_states (wake_waiter hs) ≡ true
unfolding exact_states wake_waiter holder_wake
wake_waiter-exact_states [] h = refl
wake_waiter-exact_states (x ∷ hs) h = ground (arith, h, wake_waiter-exact_states hs)
