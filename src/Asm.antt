-- ===== src/Asm.antt =====
-- The symbolic execution of x86 instructions in AT&T syntax (src/codegen.py): the executor's state.
-- The source keeps an expression as the text of an f-string; here it is the term whose text that
-- is, and `show` prints it.
pub mod Register
pub mod Family
pub mod Split
pub mod Operand
pub mod Execute
pub mod Arith
pub mod Run
pub mod Ignored
pub mod Keeps
pub mod Inverse
pub mod Sound
mod Tests
pub mod Effects
use xkernel.Base.{ℕ, List, [], ◌∷◌, ◌++◌}
use xkernel.Base.Int.{pos}
use xkernel.Base.Dict.{Dict}
use xkernel.Base.Text.{Text, text, show_int}

pub data Op : Type 0 where
  plus minus times band bor bxor left right : Op

pub data Expr : Type 0 where
  atom : Text → Expr
  binary : Op → Expr → Expr → Expr
  -- the alternatives that a shift by a number leaves: a product and a quotient
  scaled quotient : Expr → ℕ → Expr
  cmov : Expr → Expr → Expr
  zext : Expr → Expr
  borrow : Expr → Expr → Expr
  compared : Expr → Expr → Expr

unfoldable pub op_text : Op → Text
op_text Op.plus = text " + "
op_text Op.minus = text " - "
op_text Op.times = text " * "
op_text Op.band = text " & "
op_text Op.bor = text " | "
op_text Op.bxor = text " ^ "
op_text Op.left = text " << "
op_text Op.right = text " >> "

-- The f-strings.
unfoldable pub show : Expr → Text
show (Expr.atom s) = s
show (Expr.binary o a b) = text "(" ++ show a ++ op_text o ++ show b ++ text ")"
show (Expr.scaled a n) = text "(" ++ show a ++ text " * " ++ show_int 10 (pos n) ++ text ")"
show (Expr.quotient a n) = text "(" ++ show a ++ text " / " ++ show_int 10 (pos n) ++ text ")"
show (Expr.cmov a b) = text "cmov(" ++ show a ++ text ", " ++ show b ++ text ")"
show (Expr.zext a) = text "zext(" ++ show a ++ text ")"
show (Expr.borrow a b) = text "(" ++ show a ++ text " - " ++ show b ++ text " - CF)"
show (Expr.compared a b) = text "cmp(" ++ show a ++ text ", " ++ show b ++ text ")"

pub record Executor : Type 0 where
  pub reg_map : Dict Text Text
  pub reg_counter : ℕ
  pub state : Dict Text Expr
  pub state_alt : Dict Text Expr
  pub memory : Dict Text Expr
  pub used_regs : List Text

-- `SymbolicExecutor()`, and the state that `reset` leaves.
unfoldable pub new_executor : Executor
new_executor = record {
  reg_map = [];
  reg_counter = 0;
  state = [];
  state_alt = [];
  memory = [];
  used_regs = [];
}
