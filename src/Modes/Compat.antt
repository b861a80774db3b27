-- ===== src/Modes/Compat.antt =====
-- What the tables promise: fs/dlm/lock.c 96-167.
use lockify.Base.{◌≡◌, refl, true, false, arith}
use lockify.Modes.{Mode, iv, nl, modes_compat, quecvt_compat, is_down, mode_eq}

-- The table of compatible modes is symmetric.
pub modes_compat_comm : (a b : Mode) → modes_compat a b ≡ modes_compat b a
unfolding modes_compat
modes_compat_comm iv iv = refl
modes_compat_comm a b = ground arith

pub modes_compat-iv : (m : Mode) → modes_compat m iv ≡ true
unfolding modes_compat
modes_compat-iv iv = refl
modes_compat-iv _ = refl

pub modes_compat-nl : (m : Mode) → modes_compat m nl ≡ true
unfolding modes_compat
modes_compat-nl iv = refl
modes_compat-nl _ = refl

-- A down conversion gives up strength: if another mode is compatible with the granted mode, it
-- is compatible with the requested mode.
pub modes_compat-is_down :
    (gr rq other : Mode)
    → is_down gr rq ≡ true
    → modes_compat other gr ≡ true
    → modes_compat other rq ≡ true
unfolding modes_compat is_down
modes_compat-is_down iv iv iv d h = ground arith
modes_compat-is_down _ _ _ d h = ground arith

-- A conversion that the QUECVT table allows is no down conversion, and asks for another mode
-- than the granted one.
pub quecvt-not_down :
    (gr rq : Mode) → quecvt_compat gr rq ≡ true → (is_down gr rq ≡ false) × (mode_eq gr rq ≡ false)
unfolding quecvt_compat is_down
quecvt-not_down iv iv h = ground arith
quecvt-not_down _ _ h = ground arith
