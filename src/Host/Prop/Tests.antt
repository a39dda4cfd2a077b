-- ===== src/Host/Prop/Tests.antt =====
-- crates/host-core/src/prop.rs on a context of three properties.
use eieio.Base.{ℕ, ◌≡◌, refl, false, Option, none, some, List, [], ◌∷◌, ok, Bytes, codes, pos}
use eieio.Signal.Value.{Value, Entries, int, end, entry}
use eieio.Expr.Syntax.{
  default_eval_limits, error, type_error, function_result, expr, attr, span, is_signal_dependent,
}
use eieio.Expr.Num.{Floats}
use eieio.Expr.Lexer.{next_token, lex_token}
use eieio.Expr.Literals.{lex_number, lex_sigil}
use eieio.Expr.Tokens.{skip_over, skip_trivia}
use eieio.Expr.Parser.{parse_with_limits, parse_expr, take_token}
use eieio.Expr.Analyze.{analyze, walk}
use eieio.Expr.Program.{fail, run, interpret}
use eieio.Expr.Eval.{Implementation, eval_with_limits, eval, as_result, program, eval_node}
use eieio.Expr.Eval.Blind.{BlindImplementation}
use eieio.Host.Prop.Types as Types
use eieio.Host.Prop.{PropContext, Evaluate, unset, per_signal, folded, opened}
use eieio.Host.Prop.Compile.{PropertySource, compile}
use eieio.Host.Prop.Cache.{ask_all, fresh_all, ask_all-fresh_all}
use eieio.Host.Prop.Folded.{evaluates, MeetAll, compile-MeetAll}

abbrev no_floats : Floats
no_floats = record {
  of_int = λ n. 0;
  plus = λ f g. 0;
  minus = λ f g. 0;
  times = λ f g. 0;
  over = λ f g. 0;
  truncate = λ f. pos 0;
}

abbrev no_builtins : Implementation
no_builtins = λ l b args call. fail (error type_error call.span function_result)

no_builtins-Blind : BlindImplementation no_builtins
no_builtins-Blind l b args call h = tt

-- An encoder that keeps only whether there is a value.
abbrev one_byte : Value → Bytes
one_byte v = 0xf5 ∷ []

abbrev no_numbers : Bytes → Option ℕ
no_numbers text = none

abbrev at : Evaluate
at = evaluates no_numbers no_floats no_builtins one_byte default_eval_limits

abbrev three : List PropertySource
three =
    record { name = codes "a"; ty = Types.int; source = some (codes "7") }
    ∷ record { name = codes "b"; ty = Types.any; source = none }
    ∷ record { name = codes "c"; ty = Types.any; source = some (codes "$x") }
    ∷ []

abbrev context : PropContext
context = record {
  props =
      record { name = codes "a"; ty = Types.int; body = folded (ok (0xf5 ∷ [])) }
      ∷ record { name = codes "b"; ty = Types.any; body = unset }
      ∷ record {
        name = codes "c";
        ty = Types.any;
        body = per_signal (expr (attr (codes "x")) (span 0 2));
      }
      ∷ [];
  state = record { signals = none; is_open = false; cache = []; failures = []; evaluations = 1 };
}

compile-three : compile no_numbers at three ≡ some (ok context)
unfolding compile parse_with_limits parse_expr take_token next_token lex_token lex_number lex_sigil
    skip_over skip_trivia analyze walk is_signal_dependent Types.evaluate Types.conform
    eval_with_limits eval as_result run interpret program eval_node
compile-three = refl

compile-MeetAll_example :
    MeetAll no_numbers no_floats no_builtins one_byte default_eval_limits none three context.props
compile-MeetAll_example =
    compile-MeetAll no_numbers no_floats no_builtins one_byte default_eval_limits none three context
      no_builtins-Blind compile-three

abbrev one_signal : Option (List Entries)
one_signal = some (entry (codes "x") (int (pos 5)) end ∷ [])

ask_all-fresh_all_example :
    ask_all at context.props one_signal
      ((2, 0) ∷ (0, 0) ∷ (2, 0) ∷ (1, 0) ∷ (2, 1) ∷ [])
      (opened one_signal context.state)
    ≡ fresh_all at context.props one_signal ((2, 0) ∷ (0, 0) ∷ (2, 0) ∷ (1, 0) ∷ (2, 1) ∷ [])
ask_all-fresh_all_example =
    ask_all-fresh_all at context.props one_signal context.state
      ((2, 0) ∷ (0, 0) ∷ (2, 0) ∷ (1, 0) ∷ (2, 1) ∷ []) refl
