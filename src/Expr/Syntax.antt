-- ===== src/Expr/Syntax.antt =====
-- Spans, errors, expressions and budgets
-- (crates/expr/src/span.rs, error.rs, form.rs, ast.rs, budget.rs and the limits of parse.rs).
use eieio.Base.{ℕ, Bool, true, false, ◌||◌, List, [], ◌∷◌, Bytes, ltb, if◌then◌else◌}
use eieio.Signal.Value.{Value}

-- Half-open byte ranges of the source.
pub record Span : Type 0 where
  pub start : ℕ
  pub end : ℕ

abbrev pub span : ℕ → ℕ → Span
span start end = record { start = start; end = end }

abbrev pub empty_at : ℕ → Span
empty_at at = span at at

abbrev pub join : Span → Span → Span
join a b =
    span (if ltb a.start b.start then a.start else b.start)
      (if ltb b.end a.end then a.end else b.end)

pub data ErrorCode : Type 0 where
  parse_error : ErrorCode
  unbound : ErrorCode
  type_error : ErrorCode
  arity_error : ErrorCode
  domain_error : ErrorCode
  no_signal : ErrorCode
  missing : ErrorCode
  fuel : ErrorCode
  depth : ErrorCode
  size : ErrorCode
  result_type : ErrorCode

-- The texts an error carries, one constructor for each that the source writes.
pub data Message : Type 0 where
  if_arity : Message
  let_arity : Message
  let_bindings : Message
  let_binding_pair : Message
  let_binding_name : Message
  fn_arity : Message
  fn_call_arity : Message
  fn_params : Message
  fn_param_name : Message
  fn_param_duplicate : Message
  shadows_special_form : Message
  special_form_as_value : Message
  empty_list : Message
  literal_head : Message
  sigil_head : Message
  unbound_symbol : Message
  unexpected_character : Message
  symbol_after_number : Message
  malformed_float : Message
  float_not_finite : Message
  integer_outside_i64 : Message
  unterminated_string : Message
  unknown_escape : Message
  malformed_unicode : Message
  not_a_scalar : Message
  source_too_long : Message
  content_after : Message
  expected_expression : Message
  unmatched_close : Message
  nesting_too_deep : Message
  unterminated_list : Message
  cannot_shadow_literal : Message
  no_signal_context : Message
  no_such_attribute : Message
  not_a_function : Message
  function_result : Message
  fuel_exceeded : Message
  depth_exceeded : Message
  value_too_deep : Message
  value_too_large : Message
  too_few : Message
  too_many : Message
  odd_pairs : Message
  function_as_value : Message
  needs_number : Message
  needs_integer : Message
  not_negative : Message
  needs_string : Message
  needs_array : Message
  needs_map : Message
  needs_function : Message
  function_in_array : Message
  function_compared : Message
  overflow : Message
  non_finite : Message
  divide_by_zero : Message
  rounded_too_large : Message
  absent : Message
  wrong_key : Message
  array_empty : Message
  range_too_long : Message
  duplicate_key : Message
  sort_mixed : Message
  wrong_result_type : Message

pub record Error : Type 0 where
  pub code : ErrorCode
  pub span : Span
  pub message : Message

abbrev pub error : ErrorCode → Span → Message → Error
error code at message = record { code = code; span = at; message = message }

mutual
  pub data Expr : Type 0 where
    expr : ExprKind → Span → Expr

  pub data ExprKind : Type 0 where
    literal : Value → ExprKind
    symbol : Bytes → ExprKind
    signal : ExprKind
    attr : Bytes → ExprKind
    list : Exprs → ExprKind

  pub data Exprs : Type 0 where
    nil : Exprs
    cons : Expr → Exprs → Exprs

abbrev pub kind_of : Expr → ExprKind
kind_of (expr kind at) = kind

abbrev pub span_of : Expr → Span
span_of (expr kind at) = at

abbrev pub items_of : Exprs → List Expr
items_of nil = []
items_of (cons e es) = e ∷ items_of es

abbrev pub of_items : List Expr → Exprs
of_items [] = nil
of_items (e ∷ es) = cons e (of_items es)

unfoldable mutual
  pub is_signal_dependent : Expr → Bool
  is_signal_dependent (expr signal at) = true
  is_signal_dependent (expr (attr name) at) = true
  is_signal_dependent (expr (list items) at) = any_signal_dependent items
  is_signal_dependent (expr (literal value) at) = false
  is_signal_dependent (expr (symbol name) at) = false

  pub any_signal_dependent : Exprs → Bool
  any_signal_dependent nil = false
  any_signal_dependent (cons e es) = is_signal_dependent e || any_signal_dependent es

-- A budget below its floor is raised to it.
abbrev pub at_least : ℕ → ℕ → ℕ
at_least value floor = if ltb value floor then floor else value

pub record ParseLimits : Type 0 where
  pub max_expr_bytes : ℕ
  pub max_depth : ℕ

abbrev pub default_parse_limits : ParseLimits
default_parse_limits = record { max_expr_bytes = 16384; max_depth = 128 }

abbrev pub clamp_parse_limits : ParseLimits → ParseLimits
clamp_parse_limits l = record {
  max_expr_bytes = at_least l.max_expr_bytes 1024;
  max_depth = at_least l.max_depth 32;
}

pub record EvalLimits : Type 0 where
  pub max_fuel : ℕ
  pub max_depth : ℕ
  pub max_range : ℕ
  pub max_value_bytes : ℕ

abbrev pub default_eval_limits : EvalLimits
default_eval_limits = record {
  max_fuel = 100000;
  max_depth = 128;
  max_range = 65536;
  max_value_bytes = 262144;
}

abbrev pub clamp_eval_limits : EvalLimits → EvalLimits
clamp_eval_limits l = record {
  max_fuel = at_least l.max_fuel 10000;
  max_depth = at_least l.max_depth 32;
  max_range = at_least l.max_range 1000;
  max_value_bytes = at_least l.max_value_bytes 4096;
}
