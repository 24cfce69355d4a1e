-- ===== src/Runners/Syntax.antt =====
-- What `ast.parse` gives of a Python file, as far as the program reads it.
use bmk_dev.Base.{Option, List}
use bmk_dev.Base.Text.{Text}

pub data Expr : Type 0 where
  name : Text → Expr
  attribute : Expr → Text → Expr
  other_expr : Expr

-- The argument of a call: a string constant, or anything else.
pub data Argument : Type 0 where
  constant : Text → Argument
  other_argument : Argument

pub data Decorator : Type 0 where
  call : Expr → List Argument → Decorator
  bare : Decorator

-- A `FunctionDef` or an `AsyncFunctionDef`.
pub record Function : Type 0 where
  pub name_of : Text
  pub decorators : List Decorator

pub data Member : Type 0 where
  method : Function → Member
  other_member : Member

-- The targets of an assignment are names or anything else; an annotation without a value has
-- another expression.
pub data Statement : Type 0 where
  function : Function → Statement
  class_def : Text → List Member → Statement
  assign : Expr → List (Option Text) → Statement
  other_statement : Statement

-- `functions` are the functions in the order of `ast.walk`.
pub record Tree : Type 0 where
  pub body : List Statement
  pub functions : List Function
