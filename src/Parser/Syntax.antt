-- ===== src/Parser/Syntax.antt =====
-- The nodes of the syntax tree, one constructor for each `type` of a node. The source positions and
-- the original spelling of a name (`_line`, `_col`, `_ident`) are left out.
use power_bridge.Base.{ℕ, Bool, Option, List}

-- The text of a token or a field.
abbrev pub Text : Type 0
Text = List ℕ

-- `Exprs` is the argument list of a call.
mutual
  pub data Expr : Type 0 where
    number : Text → Option Text → Expr
    string : Text → Expr
    boolean : Bool → Expr
    ident : Text → Expr
    binop : Text → Expr → Expr → Expr
    compare : Text → Expr → Expr → Expr
    unaryop : Text → Expr → Expr
    call : Text → Exprs → Expr
    bar_ref : Expr → Expr → Expr
    position_kw : Text → Expr
    position_kw_call : Text → Expr → Expr → Expr
    mc_kw : Text → Expr
    data_of : Text → ℕ → Expr

  pub data Exprs : Type 0 where
    no_exprs : Exprs
    expr : Expr → Exprs → Exprs

-- `args.append(e)`
unfoldable pub append : Exprs → Expr → Exprs
append no_exprs e = expr e no_exprs
append (expr x xs) e = expr x (append xs e)

pub record VarDecl : Type 0 where
  pub name : Text
  pub init : Expr
  pub data_ref : Option Expr
  pub intrabar_persist : Bool

pub record InputDecl : Type 0 where
  pub name : Text
  pub default : Expr

pub record ArrayDecl : Type 0 where
  pub name : Text
  pub size : Option Expr
  pub init : Expr
  pub intrabar_persist : Bool

-- The label of a plot: nothing, a literal's text, or an expression.
pub data PlotLabel : Type 0 where
  no_label : PlotLabel
  literal : Text → PlotLabel
  computed : Expr → PlotLabel

-- An order's action, label, quantity and the `total` mark, then the entry it names, its timing,
-- type and price.
pub record OrderNode : Type 0 where
  pub action : Text
  pub label : Option Expr
  pub quantity : Option Expr
  pub total : Bool
  pub entry_label : Option Expr
  pub bar_timing : Text
  pub order_type : Text
  pub price : Option Expr

-- The Boolean of a body is its `block` mark: whether the source wrote `begin` and `end`.
mutual
  pub data Stmt : Type 0 where
    var_decl : List VarDecl → Stmt
    input_decl : List InputDecl → Stmt
    array_decl : List ArrayDecl → Stmt
    if_stmt : Expr → Bool → Stmts → Else → Stmt
    for_stmt : Text → Expr → Expr → Bool → Bool → Stmts → Stmt
    while_stmt : Expr → Bool → Stmts → Stmt
    repeat_until : Stmts → Expr → Stmt
    once : Bool → Stmts → Stmt
    switch : Expr → Cases → Else → Stmt
    attribute : Text → Option Expr → Option Text → Stmt
    break continue abort : Stmt
    commentary : Expr → Exprs → Bool → Stmt
    commentary_block : Stmts → Stmt
    order : OrderNode → Stmt
    risk : Text → Exprs → Stmt
    plot : Text → Expr → PlotLabel → Exprs → Stmt
    alert : Expr → Stmt
    print : Exprs → Stmt
    assign : Expr → Expr → Stmt
    expr_stmt : Expr → Stmt

  pub data Stmts : Type 0 where
    no_stmts : Stmts
    stmt : Stmt → Stmts → Stmts

  pub data Else : Type 0 where
    no_else : Else
    else_body : Bool → Stmts → Else

  pub data Cases : Type 0 where
    no_cases : Cases
    case : Expr → Stmts → Cases → Cases

-- `stmts.append(s)`
unfoldable pub append_stmt : Stmts → Stmt → Stmts
append_stmt no_stmts s = stmt s no_stmts
append_stmt (stmt x xs) s = stmt x (append_stmt xs s)

unfoldable pub append_case : Cases → Expr → Stmts → Cases
append_case no_cases e b = case e b no_cases
append_case (case x c cs) e b = case x c (append_case cs e b)
