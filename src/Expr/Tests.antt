-- ===== src/Expr/Tests.antt =====
-- Small expressions: runs of the evaluator with the table of builtins, and its theorems there.
use eieio.Base.{
  ℕ, ◌≡◌, ◌≢◌, refl, false, none, some, List, [], ◌∷◌, codes, text_eq, pos, negsuc, ◌-ℤ◌, arith, ok,
  err, ◌+ℤ◌, ◌*ℤ◌,
}
use eieio.Signal.Value.{
  Value, null, Entries, int, array, of_elements, end, entry, nests_deeper_than, encoded_len,
  canonical_arg_len,
}
use eieio.Expr.Syntax.{
  Expr, expr, unbound, unbound_symbol, needs_number, literal, symbol, list, of_items, error,
  type_error, function_result, default_eval_limits, is_signal_dependent, span,
}
use eieio.Expr.Builtin.{lookup, builtins, special_form, check_arity_of}
use eieio.Expr.Program.{Outcome, fail, run, interpret, evaluate, root}
use eieio.Expr.Num.{Floats, floor_div, floor_mod, quotient, remainder}
use eieio.Expr.Num.Floor.{OnSide, floor_div-floor_mod}
use eieio.Expr.Eval.{
  Implementation, eval, fresh, program, as_result, eval_node, eval_list, eval_call, resolve,
  resolve_builtin, apply_to, eval_args, apply, eval_form, eval_fn, fn_of, param_names, binding_name,
}
use eieio.Expr.Builtin.Arith.{fold_from_first, fold_on}
use eieio.Expr.Builtin.Access.{accept}
use eieio.Expr.Builtin.Collect.{map_on, over_array, arr_on}
use eieio.Expr.Builtin.Table.{table}
use eieio.Expr.Eval.Ends.{eval_ends}
use eieio.Expr.Eval.Budgets.{Ended, run-Ended}
use eieio.Expr.Builtin.Reads.{Lawful, is_unbound}
use eieio.Expr.Builtin.KeepsTable.{table-AllKeep, AllKeep}
use eieio.Expr.Analyze.{analyze, walk, check_arity}
use eieio.Expr.Analyze.Bound.{BoundOperand, BoundTask, NotUnbound}
use eieio.Expr.Analyze.Names.{analyze-Bound}
use eieio.Expr.Eval.Blind.{BlindOperand, BlindTask, AnyError, BlindImplementation}
use eieio.Expr.Eval.Folding.{eval_constant}

-- A processor that knows no floats, for expressions on integers.
abbrev no_floats : Floats
no_floats = record {
  of_int = λ n. 0;
  plus = λ f g. 0;
  minus = λ f g. 0;
  times = λ f g. 0;
  over = λ f g. 0;
  truncate = λ f. pos 0;
}

abbrev no_texts : Implementation
no_texts = λ l b args call. fail (error type_error call.span function_result)

abbrev numeric : Implementation
numeric = table no_floats no_texts

abbrev sym_at : ℕ → ℕ → List ℕ → Expr
sym_at start stop name = expr (symbol name) (span start stop)

abbrev int_lit : ℕ → ℕ → ℕ → Expr
int_lit start stop n = expr (literal (int (pos n))) (span start stop)

abbrev form : ℕ → ℕ → List Expr → Expr
form start stop items = expr (list (of_items items)) (span start stop)

-- (+ 1 2)
abbrev sum_expr : Expr
sum_expr = form 0 7 (sym_at 1 2 (codes "+") ∷ int_lit 3 4 1 ∷ int_lit 5 6 2 ∷ [])

-- (map (fn (x) (* x 2)) (arr 3 4))
abbrev map_expr : Expr
map_expr = form 0 32 (
    sym_at 1 4 (codes "map")
    ∷ form 5 21 (
        sym_at 6 8 (codes "fn")
        ∷ form 9 12 (sym_at 10 11 (codes "x") ∷ [])
        ∷ form 13 20 (sym_at 14 15 (codes "*") ∷ sym_at 16 17 (codes "x") ∷ int_lit 18 19 2 ∷ [])
        ∷ [])
    ∷ form 22 31 (sym_at 23 26 (codes "arr") ∷ int_lit 27 28 3 ∷ int_lit 29 30 4 ∷ [])
    ∷ [])

abbrev run_test : Expr → Outcome Value
run_test e = eval numeric default_eval_limits none e fresh

eval_sum : run_test sum_expr ≡ some (ok (int (pos 3)), record { fuel_spent = 5; depth = 0 })
unfolding eval as_result run interpret program eval_node eval_list special_form text_eq eval_call
    resolve resolve_builtin lookup builtins apply_to eval_args apply check_arity_of table
    fold_from_first fold_on ◌+ℤ◌
eval_sum = refl

eval_map :
    run_test map_expr
    ≡ some (
      ok (array (of_elements (int (pos 6) ∷ int (pos 8) ∷ []))),
      record { fuel_spent = 21; depth = 0 },
    )
unfolding eval as_result run interpret program eval_node eval_list special_form text_eq eval_call
    resolve resolve_builtin lookup builtins apply_to eval_args apply check_arity_of table
    fold_from_first fold_on ◌*ℤ◌ map_on over_array arr_on accept eval_form eval_fn fn_of param_names
    binding_name nests_deeper_than encoded_len canonical_arg_len
eval_map = refl

eval_ends_example : eval numeric default_eval_limits none map_expr fresh ≢ none
eval_ends_example =
    eval_ends numeric default_eval_limits none map_expr fresh (omega arith) (omega arith)

run-Ended_example : Ended default_eval_limits fresh (
    run default_eval_limits
      (program numeric default_eval_limits none)
      9
      (evaluate sum_expr root)
      fresh)
run-Ended_example =
    run-Ended default_eval_limits (program numeric default_eval_limits none) 9
      (evaluate sum_expr root) fresh (omega arith, omega arith)

abbrev some_fields : Entries
some_fields = entry (codes "x") (int (pos 1)) end

sum_is_constant : is_signal_dependent sum_expr ≡ false
unfolding is_signal_dependent
sum_is_constant = refl

blind_laws : Lawful BlindOperand BlindTask AnyError
blind_laws = record {
  of_value = λ v. tt;
  of_error = λ e h. tt;
  of_call = λ f args call hf ha. (hf, ha);
}

numeric-Blind : BlindImplementation numeric
numeric-Blind =
    table-AllKeep BlindOperand BlindTask AnyError blind_laws no_floats no_texts
      (λ l b args call ha. tt)

eval_constant_example :
    eval numeric default_eval_limits none sum_expr fresh
    ≡ eval numeric default_eval_limits (some some_fields) sum_expr fresh
eval_constant_example =
    eval_constant numeric numeric-Blind default_eval_limits sum_expr none (some some_fields) fresh
      sum_is_constant

bound_laws : Lawful BoundOperand BoundTask NotUnbound
bound_laws = record {
  of_value = λ v. tt;
  of_error = λ e h. h;
  of_call = λ f args call hf ha. (hf, ha);
}

numeric-AllKeep : AllKeep BoundOperand BoundTask NotUnbound numeric
numeric-AllKeep =
    table-AllKeep BoundOperand BoundTask NotUnbound bound_laws no_floats no_texts
      (λ l b args call ha. refl)

-- (+ 1 null)
abbrev bad_sum : Expr
bad_sum = form 0 10 (sym_at 1 2 (codes "+") ∷ int_lit 3 4 1 ∷ expr (literal null) (span 5 9) ∷ [])

bad_sum_is_clean : (analyze bad_sum).diagnostics ≡ []
unfolding analyze walk check_arity check_arity_of special_form lookup builtins text_eq
bad_sum_is_clean = refl

-- `+` is misspelt.
analyze_typo :
    (analyze (form 0 8 (sym_at 1 3 (codes "++") ∷ int_lit 4 5 1 ∷ []))).diagnostics
    ≡ error unbound (span 1 3) unbound_symbol ∷ []
unfolding analyze walk check_arity check_arity_of special_form lookup builtins text_eq
analyze_typo = refl

eval_bad_sum :
    run_test bad_sum
    ≡ some (err (error type_error (span 5 9) needs_number), record { fuel_spent = 5; depth = 0 })
unfolding eval as_result run interpret program eval_node eval_list special_form text_eq eval_call
    resolve resolve_builtin lookup builtins apply_to eval_args apply check_arity_of table
    fold_from_first fold_on ◌+ℤ◌
eval_bad_sum = refl

analyze-Bound_example : is_unbound (error type_error (span 5 9) needs_number) ≡ false
analyze-Bound_example =
    analyze-Bound numeric numeric-AllKeep default_eval_limits none bad_sum fresh
      (error type_error (span 5 9) needs_number) (record { fuel_spent = 5; depth = 0 })
      bad_sum_is_clean eval_bad_sum

-- -7 divided by 2 is -4 and leaves 1.
div_minus_seven : floor_div (negsuc 6) (pos 2) ≡ ok (negsuc 3)
unfolding floor_div quotient remainder ◌-ℤ◌
div_minus_seven = refl

mod_minus_seven : floor_mod (negsuc 6) (pos 2) ≡ ok (pos 1)
unfolding floor_mod quotient remainder ◌+ℤ◌
mod_minus_seven = refl

floor_div-floor_mod_example : ((negsuc 3 *ℤ pos 2) +ℤ pos 1 ≡ negsuc 6) × OnSide (pos 2) (pos 1)
floor_div-floor_mod_example =
    floor_div-floor_mod (negsuc 6) (pos 2) (negsuc 3) (pos 1) div_minus_seven mod_minus_seven
