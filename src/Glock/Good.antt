-- ===== src/Glock/Good.antt =====
-- When the holders of a glock are in order, and what the loops over them keep: fs/gfs2/glock.c
-- 324-406 and 474-500.
use lockify.Base.{
  ℕ, ◌≡◌, refl, Bool, true, not, ◌&&◌, ◌||◌, List, [], ◌∷◌, Option, none, some, if◌then◌else◌,
  arith,
}
use lockify.Glock.{LmState, unlocked, exclusive, deferred, shared, same, Holder}
use lockify.Glock.Promote.{
  may_share, may_grant_first, may_grant, holder_wake, kept, find_first_holder, granted, promote,
}

-- Two holders may have the glock at once.
abbrev pub share : Holder → Holder → Bool
share a b =
    same a.gh_state b.gh_state
    && (not (same a.gh_state exclusive) || (a.node_scope && b.node_scope))

-- A glock in that state serves the holder.
abbrev pub covers : LmState → Holder → Bool
covers state gh =
    same state gh.gh_state
    || (same state exclusive && (same gh.gh_state shared || same gh.gh_state deferred))

unfoldable pub all_wait : List Holder → Bool
all_wait [] = true
all_wait (gh ∷ rest) = not gh.holder && all_wait rest

-- Behind a holder that has the glock: those that share it with that holder, then those that wait.
unfoldable pub follow : Holder → List Holder → Bool
follow first [] = true
follow first (gh ∷ rest) = if gh.holder then share first gh && follow first rest else all_wait rest

-- No holder takes any state, or asks for none.
unfoldable pub exact_states : List Holder → Bool
exact_states [] = true
exact_states (gh ∷ rest) = not gh.any && not (same gh.gh_state unlocked) && exact_states rest

unfoldable pub in_order : LmState → List Holder → Bool
in_order state [] = true
in_order state (gh ∷ rest) = if gh.holder then covers state gh && follow gh rest else all_wait rest

pub all_wait-follow : (gh : Holder) (hs : List Holder) → all_wait hs ≡ true → follow gh hs ≡ true
unfolding all_wait follow
all_wait-follow gh [] h = refl
all_wait-follow gh (x ∷ hs) h = ground (arith, h)

pub all_wait-in_order :
    (st : LmState) (hs : List Holder) → all_wait hs ≡ true → in_order st hs ≡ true
unfolding all_wait in_order
all_wait-in_order st [] h = refl
all_wait-in_order st (x ∷ hs) h = ground (arith, h)

may_share-share :
    (c gh : Holder)
    → not (same gh.gh_state unlocked) ≡ true
    → may_share c gh ≡ true
    → share c (granted gh) ≡ true
unfolding may_share granted holder_wake
may_share-share c gh u h = ground (arith, u, h)

promote-follow :
    (st : LmState) (c : Holder) (hs : List Holder)
    → exact_states hs ≡ true
    → follow c hs ≡ true
    → follow c (promote st (some c) hs).0 ≡ true
unfolding promote follow exact_states may_grant granted holder_wake all_wait
promote-follow st c [] e f = refl
promote-follow st c (x ∷ hs) e f =
    ground (arith, e, f, may_share-share c x, all_wait-follow c hs, promote-follow st c hs)

-- The first of a queue in order has the glock, or nobody has it.
pub promote-in_order :
    (st : LmState) (hs : List Holder)
    → exact_states hs ≡ true
    → in_order st hs ≡ true
    → in_order st (promote st (find_first_holder hs) hs).0 ≡ true
unfolding promote in_order find_first_holder exact_states may_grant may_grant_first granted
    holder_wake all_wait
promote-in_order st [] e h = refl
promote-in_order st (x ∷ hs) e h = ground (
  arith,
  e,
  h,
  all_wait-follow (granted x) hs,
  promote-follow st x hs,
  promote-follow st (granted x) hs,
)

pub promote-exact_states :
    (st : LmState) (c : Option Holder) (hs : List Holder)
    → exact_states hs ≡ true
    → exact_states (promote st c hs).0 ≡ true
unfolding promote exact_states granted holder_wake
promote-exact_states st c [] e = refl
promote-exact_states st none (x ∷ hs) e =
    ground
      (arith, e, promote-exact_states st none hs, promote-exact_states st (some (granted x)) hs)
promote-exact_states st (some c) (x ∷ hs) e = ground (arith, e, promote-exact_states st (some c) hs)

pub kept-all_wait : (n : ℕ) (hs : List Holder) → all_wait hs ≡ true → all_wait (kept n hs) ≡ true
unfolding kept all_wait
kept-all_wait n [] h = refl
kept-all_wait n (x ∷ hs) h = ground (arith, h, kept-all_wait n hs)

kept-follow :
    (n : ℕ) (c : Holder) (hs : List Holder) → follow c hs ≡ true → follow c (kept n hs) ≡ true
unfolding kept follow
kept-follow n c [] h = refl
kept-follow n c (x ∷ hs) h =
    ground (arith, h, kept-follow n c hs, kept-all_wait n hs, all_wait-follow c (kept n hs))

pub kept-in_order :
    (n : ℕ) (st : LmState) (hs : List Holder)
    → in_order st hs ≡ true
    → in_order st (kept n hs) ≡ true
unfolding kept in_order
kept-in_order n st [] h = refl
kept-in_order n st (x ∷ hs) h =
    ground (arith, h, kept-follow n x hs, kept-all_wait n hs, all_wait-in_order st (kept n hs))

pub kept-exact_states :
    (n : ℕ) (hs : List Holder) → exact_states hs ≡ true → exact_states (kept n hs) ≡ true
unfolding kept exact_states
kept-exact_states n [] h = refl
kept-exact_states n (x ∷ hs) h = ground (arith, h, kept-exact_states n hs)
