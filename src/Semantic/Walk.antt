-- ===== src/Semantic/Walk.antt =====
-- semantic.py: the nodes that `walk` meets, in its order, and the names that a program declares.
use power_bridge.Base.{Bool, true, if◌then◌else◌, ℕ, suc, Option, none, some, List, [], ◌∷◌, ◌++◌}
use power_bridge.Parser.Syntax.{
  Text, Expr, Exprs, VarDecl, InputDecl, ArrayDecl, PlotLabel, OrderNode, Stmt, Stmts, Else, Cases,
  number, string, boolean, ident, binop, compare, unaryop, call, bar_ref, position_kw,
  position_kw_call, mc_kw, data_of, no_exprs, expr, no_label, literal, computed, var_decl,
  input_decl, array_decl, if_stmt, for_stmt, while_stmt, repeat_until, once, switch, attribute,
  break, continue, abort, commentary, commentary_block, order, risk, plot, alert, print, assign,
  expr_stmt, no_stmts, stmt, no_else, else_body, no_cases, case,
}

-- A node that the checks look at: a call with its number of arguments, or an identifier.
pub data Visit : Type 0 where
  called : Text → ℕ → Visit
  named : Text → Visit

abbrev count : Exprs → ℕ
count no_exprs = 0
count (expr e es) = suc (count es)

unfoldable mutual
  pub walk_expr : Expr → List Visit
  walk_expr (number value symbol) = []
  walk_expr (string text) = []
  walk_expr (boolean b) = []
  walk_expr (ident name) = named name ∷ []
  walk_expr (binop word left right) = walk_expr left ++ walk_expr right
  walk_expr (compare word left right) = walk_expr left ++ walk_expr right
  walk_expr (unaryop word operand) = walk_expr operand
  walk_expr (call name args) = called name (count args) ∷ walk_exprs args
  walk_expr (bar_ref series index) = walk_expr series ++ walk_expr index
  walk_expr (position_kw kwarg) = []
  walk_expr (position_kw_call kwarg a b) = walk_expr a ++ walk_expr b
  walk_expr (mc_kw kwarg) = []
  walk_expr (data_of series n) = []

  pub walk_exprs : Exprs → List Visit
  walk_exprs no_exprs = []
  walk_exprs (expr e es) = walk_expr e ++ walk_exprs es

abbrev walk_option : Option Expr → List Visit
walk_option none = []
walk_option (some e) = walk_expr e

abbrev pub walk_vars : List VarDecl → List Visit
walk_vars [] = []
walk_vars (d ∷ ds) = (walk_expr d.init ++ walk_option d.data_ref) ++ walk_vars ds

abbrev walk_inputs : List InputDecl → List Visit
walk_inputs [] = []
walk_inputs (d ∷ ds) = walk_expr d.default ++ walk_inputs ds

abbrev walk_arrays : List ArrayDecl → List Visit
walk_arrays [] = []
walk_arrays (d ∷ ds) = (walk_option d.size ++ walk_expr d.init) ++ walk_arrays ds

abbrev walk_label : PlotLabel → List Visit
walk_label no_label = []
walk_label (literal text) = []
walk_label (computed e) = walk_expr e

abbrev walk_order : OrderNode → List Visit
walk_order o =
    walk_option o.label
    ++ (walk_option o.quantity ++ (walk_option o.entry_label ++ walk_option o.price))

unfoldable mutual
  pub walk_stmt : Stmt → List Visit
  walk_stmt (var_decl ds) = walk_vars ds
  walk_stmt (input_decl ds) = walk_inputs ds
  walk_stmt (array_decl ds) = walk_arrays ds
  walk_stmt (if_stmt cond b stmts other) = walk_expr cond ++ (walk_stmts stmts ++ walk_else other)
  walk_stmt (for_stmt var start last downto b stmts) =
      walk_expr start ++ (walk_expr last ++ walk_stmts stmts)
  walk_stmt (while_stmt cond b stmts) = walk_expr cond ++ walk_stmts stmts
  walk_stmt (repeat_until stmts cond) = walk_stmts stmts ++ walk_expr cond
  walk_stmt (once b stmts) = walk_stmts stmts
  walk_stmt (switch value cases default) =
      walk_expr value ++ (walk_cases cases ++ walk_else default)
  walk_stmt (attribute name value raw) = walk_option value
  walk_stmt break = []
  walk_stmt continue = []
  walk_stmt abort = []
  walk_stmt (commentary msg extra cl) = walk_expr msg ++ walk_exprs extra
  walk_stmt (commentary_block stmts) = walk_stmts stmts
  walk_stmt (order o) = walk_order o
  walk_stmt (risk name args) = walk_exprs args
  walk_stmt (plot name value label extra) =
      walk_expr value ++ (walk_label label ++ walk_exprs extra)
  walk_stmt (alert msg) = walk_expr msg
  walk_stmt (print args) = walk_exprs args
  walk_stmt (assign target value) = walk_expr target ++ walk_expr value
  walk_stmt (expr_stmt e) = walk_expr e

  pub walk_stmts : Stmts → List Visit
  walk_stmts no_stmts = []
  walk_stmts (stmt s stmts) = walk_stmt s ++ walk_stmts stmts

  pub walk_else : Else → List Visit
  walk_else no_else = []
  walk_else (else_body b stmts) = walk_stmts stmts

  pub walk_cases : Cases → List Visit
  walk_cases no_cases = []
  walk_cases (case value stmts cases) = (walk_expr value ++ walk_stmts stmts) ++ walk_cases cases

abbrev pub var_names : List VarDecl → List Text
var_names [] = []
var_names (d ∷ ds) = d.name ∷ var_names ds

abbrev input_names : List InputDecl → List Text
input_names [] = []
input_names (d ∷ ds) = d.name ∷ input_names ds

abbrev array_names : List ArrayDecl → List Text
array_names [] = []
array_names (d ∷ ds) = d.name ∷ array_names ds

-- The names of the declarations, and the variables of the loops, as wanted.
module _ (decls loops : Bool) where
  unfoldable mutual
    pub names_by : Stmt → List Text
    names_by (var_decl ds) = if decls then var_names ds else []
    names_by (input_decl ds) = if decls then input_names ds else []
    names_by (array_decl ds) = if decls then array_names ds else []
    names_by (if_stmt cond b stmts other) = names_in stmts ++ names_by_else other
    names_by (for_stmt var start last downto b stmts) =
        (if loops then var ∷ [] else []) ++ names_in stmts
    names_by (while_stmt cond b stmts) = names_in stmts
    names_by (repeat_until stmts cond) = names_in stmts
    names_by (once b stmts) = names_in stmts
    names_by (switch value cases default) = names_by_cases cases ++ names_by_else default
    names_by (commentary_block stmts) = names_in stmts
    names_by _ = []

    pub names_in : Stmts → List Text
    names_in no_stmts = []
    names_in (stmt s stmts) = names_by s ++ names_in stmts

    pub names_by_else : Else → List Text
    names_by_else no_else = []
    names_by_else (else_body b stmts) = names_in stmts

    pub names_by_cases : Cases → List Text
    names_by_cases no_cases = []
    names_by_cases (case value stmts cases) = names_in stmts ++ names_by_cases cases

unfoldable pub collect_declared : Stmts → List Text
unfolding names_in
collect_declared body = names_in true true body
