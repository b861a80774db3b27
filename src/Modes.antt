-- ===== src/Modes.antt =====
-- Lock modes and the three tables over them: fs/dlm/lock.c 96-167 and
-- include/uapi/linux/dlmconstants.h. A mode is the `int8_t` of the source, -1 to 5.
pub mod Compat
use lockify.Base.{
  ℕ, ◌+◌, Bool, true, false, List, [], ◌∷◌, get_or, ltb, leb, ◌==◌, if◌then◌else◌, ◌&&◌, ◌||◌, not,
}

-- DLM_LOCK_IV .. DLM_LOCK_EX
pub data Mode : Type 0 where
  iv : Mode  -- invalid, -1
  nl : Mode  -- null, 0
  cr : Mode  -- concurrent read
  cw : Mode  -- concurrent write
  pr : Mode  -- protected read
  pw : Mode  -- protected write
  ex : Mode  -- exclusive, 5

-- `mode + 1`, by which the tables are indexed. Modes compare as their slots do.
abbrev pub slot : Mode → ℕ
slot iv = 0
slot nl = 1
slot cr = 2
slot cw = 3
slot pr = 4
slot pw = 5
slot ex = 6

abbrev pub mode_eq : Mode → Mode → Bool
mode_eq a b = slot a == slot b

abbrev pub mode_lt : Mode → Mode → Bool
mode_lt a b = ltb (slot a) (slot b)

-- `max_t(int, a, b)`
abbrev pub mode_max : Mode → Mode → Mode
mode_max a b = if mode_lt b a then a else b

abbrev row : Bool → Bool → Bool → Bool → Bool → Bool → Bool → Bool → List Bool
row a b c d e f g h = a ∷ b ∷ c ∷ d ∷ e ∷ f ∷ g ∷ h ∷ []

abbrev y : Bool
y = true

abbrev n : Bool
n = false

-- `matrix[grmode+1][rqmode+1]`; the columns are UN NL CR CW PR PW EX PD, and so are the rows.
abbrev dlm_compat_matrix : List (List Bool)
dlm_compat_matrix =
    row y y y y y y y n
    ∷ row y y y y y y y n
    ∷ row y y y y y y n n
    ∷ row y y y y n n n n
    ∷ row y y y n y n n n
    ∷ row y y y n n n n n
    ∷ row y y n n n n n n
    ∷ row n n n n n n n n
    ∷ []

abbrev quecvt_compat_matrix : List (List Bool)
quecvt_compat_matrix =
    row n n n n n n n n
    ∷ row n n y y y y y n
    ∷ row n n n y y y y n
    ∷ row n n n n y y y n
    ∷ row n n n y n y y n
    ∷ row n n n n n n y n
    ∷ row n n n n n n n n
    ∷ row n n n n n n n n
    ∷ []

-- An access outside the 8 by 8 table, which no mode makes, reads `false` here.
unfoldable pub modes_compat : Mode → Mode → Bool
modes_compat gr rq = get_or (get_or dlm_compat_matrix (slot gr) []) (slot rq) false

unfoldable pub quecvt_compat : Mode → Mode → Bool
quecvt_compat gr rq = get_or (get_or quecvt_compat_matrix (slot gr) []) (slot rq) false

-- The entries 1, 0 and -1 of `dlm_lvb_operations`.
pub data LvbOp : Type 0 where
  returned : LvbOp  -- 1: the LVB is returned to the caller
  written : LvbOp  -- 0: the LVB is written to the resource
  nothing : LvbOp  -- -1

abbrev lvb_row : LvbOp → LvbOp → LvbOp → LvbOp → LvbOp → LvbOp → LvbOp → LvbOp → List LvbOp
lvb_row a b c d e f g h = a ∷ b ∷ c ∷ d ∷ e ∷ f ∷ g ∷ h ∷ []

abbrev r : LvbOp
r = LvbOp.returned

abbrev w : LvbOp
w = LvbOp.written

abbrev x : LvbOp
x = LvbOp.nothing

abbrev dlm_lvb_operations : List (List LvbOp)
dlm_lvb_operations =
    lvb_row x r r r r r r x
    ∷ lvb_row x r r r r r r w
    ∷ lvb_row x x r r r r r w
    ∷ lvb_row x x x r r r r w
    ∷ lvb_row x x x x r r r w
    ∷ lvb_row x w w w w w r w
    ∷ lvb_row x w w w w w w w
    ∷ lvb_row x w w w w w w w
    ∷ []

unfoldable pub lvb_operation : Mode → Mode → LvbOp
lvb_operation gr rq = get_or (get_or dlm_lvb_operations (slot gr) []) (slot rq) LvbOp.nothing

-- Between PR and CW, in either direction: the two modes are not ordered by strength.
unfoldable pub is_middle : Mode → Mode → Bool
is_middle gr rq =
    (mode_eq gr Mode.pr && mode_eq rq Mode.cw) || (mode_eq rq Mode.pr && mode_eq gr Mode.cw)

unfoldable pub is_down : Mode → Mode → Bool
unfolding is_middle
is_down gr rq = not (is_middle gr rq) && mode_lt rq gr
