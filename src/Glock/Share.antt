-- ===== src/Glock/Share.antt =====
-- What holders in order are to each other: fs/gfs2/glock.c 324-364.
use lockify.Base.{◌≡◌, refl, Bool, true, not, ◌&&◌, ◌||◌, List, [], ◌∷◌, arith}
use lockify.Glock.{LmState, Holder}
use lockify.Glock.Good.{all_wait, in_order, share, covers, follow}
use lockify.Glock.Moves.{share-follow, covers-share}

pub shares_with : Holder → List Holder → Bool
shares_with gh [] = true
shares_with gh (x ∷ rest) = (not x.holder || share gh x) && shares_with gh rest

-- Any two that have the glock can have it at once.
pub all_share : List Holder → Bool
all_share [] = true
all_share (gh ∷ rest) = (not gh.holder || shares_with gh rest) && all_share rest

-- Whoever has the glock has it in a state that serves him.
pub all_covered : LmState → List Holder → Bool
all_covered st [] = true
all_covered st (gh ∷ rest) = (not gh.holder || covers st gh) && all_covered st rest

all_wait-shares_with :
    (gh : Holder) (hs : List Holder) → all_wait hs ≡ true → shares_with gh hs ≡ true
unfolding all_wait shares_with
all_wait-shares_with gh [] h = refl
all_wait-shares_with gh (x ∷ hs) h = ground (arith, h, all_wait-shares_with gh hs)

all_wait-all_share : (hs : List Holder) → all_wait hs ≡ true → all_share hs ≡ true
unfolding all_wait all_share
all_wait-all_share [] h = refl
all_wait-all_share (x ∷ hs) h = ground (arith, h, all_wait-all_share hs)

all_wait-all_covered :
    (st : LmState) (hs : List Holder) → all_wait hs ≡ true → all_covered st hs ≡ true
unfolding all_wait all_covered
all_wait-all_covered st [] h = refl
all_wait-all_covered st (x ∷ hs) h = ground (arith, h, all_wait-all_covered st hs)

follow-shares_with :
    (gh : Holder) (hs : List Holder) → follow gh hs ≡ true → shares_with gh hs ≡ true
unfolding follow shares_with
follow-shares_with gh [] h = refl
follow-shares_with gh (x ∷ hs) h =
    ground (arith, h, follow-shares_with gh hs, all_wait-shares_with gh hs)

follow-all_share : (gh : Holder) (hs : List Holder) → follow gh hs ≡ true → all_share hs ≡ true
unfolding follow all_share
follow-all_share gh [] h = refl
follow-all_share gh (x ∷ hs) h = ground (
  arith,
  h,
  share-follow gh x hs,
  follow-shares_with x hs,
  follow-all_share gh hs,
  all_wait-all_share hs,
)

follow-all_covered :
    (st : LmState) (gh : Holder) (hs : List Holder)
    → covers st gh ≡ true
    → follow gh hs ≡ true
    → all_covered st hs ≡ true
unfolding follow all_covered
follow-all_covered st gh [] c h = refl
follow-all_covered st gh (x ∷ hs) c h =
    ground (
      arith,
      c,
      h,
      covers-share st gh x c,
      follow-all_covered st gh hs c,
      all_wait-all_covered st hs,
    )

pub in_order-all_share :
    (st : LmState) (hs : List Holder) → in_order st hs ≡ true → all_share hs ≡ true
unfolding in_order all_share
in_order-all_share st [] h = refl
in_order-all_share st (x ∷ hs) h =
    ground (arith, h, follow-shares_with x hs, follow-all_share x hs, all_wait-all_share hs)

pub in_order-all_covered :
    (st : LmState) (hs : List Holder) → in_order st hs ≡ true → all_covered st hs ≡ true
unfolding in_order all_covered
in_order-all_covered st [] h = refl
in_order-all_covered st (x ∷ hs) h =
    ground (arith, h, follow-all_covered st x hs, all_wait-all_covered st hs)
