-- ===== src/Expr/Parser/Tests.antt =====
-- Small sources: runs of the parser, and its theorem at one of them.
use eieio.Base.{ℕ, Bytes, codes, text_eq, Option, none, some, pos, ok, err, refl, ◌≡◌}
use eieio.Signal.Value.{int}
use eieio.Expr.Syntax.{
  expr, literal, symbol, list, nil, cons, span, error, parse_error, unterminated_list,
  default_parse_limits, clamp_parse_limits, cannot_shadow_literal,
}
use eieio.Expr.Tokens.{skip_over, skip_trivia}
use eieio.Expr.Literals.{symbol_or_literal, lex_symbol, lex_number}
use eieio.Expr.Lexer.{lex_token, next_token}
use eieio.Expr.Parser.{parse_with_limits, parse_expr, take_token, check_let_shadowing}
use eieio.Expr.Parser.Ends.{Parses, parse-Parses}

-- No source here has a float.
abbrev no_float : Bytes → Option ℕ
no_float text = none

parse_sum :
    parse_with_limits no_float default_parse_limits (codes "(+ 1 2)")
    ≡ some (
        ok (
          expr
            (list (
              cons (expr (symbol (codes "+")) (span 1 2)) (
                cons
                  (expr (literal (int (pos 1))) (span 3 4))
                  (cons (expr (literal (int (pos 2))) (span 5 6)) nil))))
            (span 0 7)))
unfolding parse_with_limits parse_expr take_token check_let_shadowing next_token lex_token
    lex_symbol lex_number symbol_or_literal skip_over skip_trivia text_eq
parse_sum = refl

parse_open :
    parse_with_limits no_float default_parse_limits (codes "(a ;b")
    ≡ some (err (error parse_error (span 0 5) unterminated_list))
unfolding parse_with_limits parse_expr take_token check_let_shadowing next_token lex_token
    lex_symbol lex_number symbol_or_literal skip_over skip_trivia text_eq
parse_open = refl

parse_shadow :
    parse_with_limits no_float default_parse_limits (codes "(let ((null 1)) 2)")
    ≡ some (err (error parse_error (span 7 11) cannot_shadow_literal))
unfolding parse_with_limits parse_expr take_token check_let_shadowing next_token lex_token
    lex_symbol lex_number symbol_or_literal skip_over skip_trivia text_eq
parse_shadow = refl

parse-Parses_example :
    Parses
      (clamp_parse_limits default_parse_limits).max_depth
      (parse_with_limits no_float default_parse_limits (codes "(+ 1 2)"))
parse-Parses_example = parse-Parses no_float default_parse_limits (codes "(+ 1 2)")
