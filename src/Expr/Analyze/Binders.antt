-- ===== src/Expr/Analyze/Binders.antt =====
-- About `let_bindings_loop` and `param_names` of Expr/Eval, against the walks of `let` and `fn` in
-- crates/expr/src/analyze.rs.
use eieio.Base.{
  ℕ, ◌≡◌, ◌⊎◌, inl, inr, refl, sym, subst, Bool, true, false, ◌||◌, List, [], ◌∷◌, ◌++◌, Bytes,
  text_eq, any, arith, length, drop, if◌then◌else◌, or-right, ok, err,
}
use eieio.Expr.Syntax.{
  Span, Error, Expr, Exprs, error, expr, literal, symbol, signal, attr, list, nil, cons, items_of,
  arity_error, unbound, shadows_special_form, fn_param_duplicate,
}
use eieio.Expr.Builtin.{is_special_form}
use eieio.Expr.Program.{Env, Program, function, closure, bind, evaluate, ret, ask, ◌>>=◌}
use eieio.Expr.Eval.{binding_name, param_names, eval_let, let_in, let_bindings_loop, eval_fn, fn_of}
use eieio.Expr.Analyze.{
  contains, walk, walk_name, walk_param, walk_params, walk_param_list, walk_let, walk_bindings,
  walk_each, walk_fn, note,
}
use eieio.Expr.Analyze.Bound.{Found, Ready, BoundProgram, append-parts, contains_append, Ready-bind}
use eieio.Expr.Analyze.Forms.{accepted_name}

let_bindings_loop-Bound :
    (bs : Exprs) (scope : List Bytes) (body : Expr) (env : Env)
    → Ready scope env
    → (walk_each bs scope).0 ≡ []
    → walk body (walk_each bs scope).1 ≡ []
    → BoundProgram (let_bindings_loop (items_of bs) body env)
unfolding let_bindings_loop walk
let_bindings_loop-Bound nil scope body env h hs hb = ((scope, h, hb), (λ a v. v))
let_bindings_loop-Bound (cons (expr (list (cons name (cons value nil))) at) bs) scope body env h hs
      hb =
    let parts : (walk value scope ++ (walk_name name scope).0 ≡ [])
        × ((walk_each bs (walk_name name scope).1).0 ≡ []) =
      append-parts (walk value scope ++ (walk_name name scope).0)
        (walk_each bs (walk_name name scope).1).0 hs in
    let pair : (walk value scope ≡ []) × ((walk_name name scope).0 ≡ []) =
      append-parts (walk value scope) (walk_name name scope).0 parts.0 in
    accepted_name name scope
      (λ n. ask (evaluate value env) (λ a. let_bindings_loop (items_of bs) body (bind n a env)))
      pair.1
      (λ n e. (
        (scope, h, pair.0),
        (λ a v.
            let_bindings_loop-Bound bs (walk_name name scope).1 body (bind n a env)
              (subst (λ s. Ready s (bind n a env)) (sym e) (Ready-bind scope env n a h v)) parts.1
              hb),
      ))
let_bindings_loop-Bound (cons (expr (list nil) at) bs) scope body env h hs hb = refl
let_bindings_loop-Bound (cons (expr (list (cons n nil)) at) bs) scope body env h hs hb = refl
let_bindings_loop-Bound (cons (expr (list (cons n (cons v (cons x xs)))) at) bs) scope body env h hs
      hb =
    refl
let_bindings_loop-Bound (cons (expr (literal v) at) bs) scope body env h hs hb = refl
let_bindings_loop-Bound (cons (expr (symbol n) at) bs) scope body env h hs hb = refl
let_bindings_loop-Bound (cons (expr signal at) bs) scope body env h hs hb = refl
let_bindings_loop-Bound (cons (expr (attr n) at) bs) scope body env h hs hb = refl

let_in-Bound :
    (bindings : Expr) (scope : List Bytes) (body : Expr) (env : Env)
    → Ready scope env
    → (walk_bindings bindings scope).0 ≡ []
    → walk body (walk_bindings bindings scope).1 ≡ []
    → BoundProgram (let_in bindings body env)
unfolding let_in walk
let_in-Bound (expr (list bs) at) scope body env h hs hb =
    let_bindings_loop-Bound bs scope body env h hs hb
let_in-Bound (expr (literal v) at) scope body env h hs hb = refl
let_in-Bound (expr (symbol n) at) scope body env h hs hb = refl
let_in-Bound (expr signal at) scope body env h hs hb = refl
let_in-Bound (expr (attr n) at) scope body env h hs hb = refl

pub eval_let-Bound :
    (es : Exprs) (scope : List Bytes) (at : Span) (env : Env)
    → Ready scope env
    → walk_let es scope ≡ []
    → BoundProgram (eval_let at (items_of es) env)
unfolding eval_let walk
eval_let-Bound nil scope at env h hs = refl
eval_let-Bound (cons b nil) scope at env h hs = refl
eval_let-Bound (cons b (cons body (cons x xs))) scope at env h hs = refl
eval_let-Bound (cons b (cons body nil)) scope at env h hs =
    let parts : ((walk_bindings b scope).0 ≡ []) × (walk body (walk_bindings b scope).1 ≡ []) =
      append-parts (walk_bindings b scope).0 (walk body (walk_bindings b scope).1) hs in
    let_in-Bound b scope body env h parts.0 parts.1

-- The names of a scope are bound outside or among the parameters read so far.
abbrev Outside : (Bytes → Type 0) → List Bytes → List Bytes → Type 0
Outside P scope names = (n : Bytes) → contains scope n ≡ true → P n ⊎ (contains names n ≡ true)

contains_last :
    (xs : List Bytes) (m n : Bytes) → text_eq n m ≡ true → contains (xs ++ m ∷ []) n ≡ true
contains_last [] m n h = rw h refl
contains_last (x ∷ xs) m n h =
    or-right (text_eq n x) (contains (xs ++ m ∷ []) n) (contains_last xs m n h)

contains_more :
    (xs : List Bytes) (m n : Bytes) → contains xs n ≡ true → contains (xs ++ m ∷ []) n ≡ true
contains_more [] m n h = absurd (ground arith)
contains_more (x ∷ xs) m n h = more (text_eq n x) h (λ h'. contains_more xs m n h')
  where
    more :
        (a : Bool)
        → (a || contains xs n) ≡ true
        → (contains xs n ≡ true → contains (xs ++ m ∷ []) n ≡ true)
        → (a || contains (xs ++ m ∷ []) n) ≡ true
    more true h k = refl
    more false h k = k h

Outside-param :
    (P : Bytes → Type 0) (scope names : List Bytes) (m : Bytes)
    → Outside P scope names
    → Outside P (scope ++ m ∷ []) (names ++ m ∷ [])
Outside-param P scope names m h n hn = either (contains_append scope m n hn)
  where
    kept : P n ⊎ (contains names n ≡ true) → P n ⊎ (contains (names ++ m ∷ []) n ≡ true)
    kept (inl p) = inl p
    kept (inr c) = inr (contains_more names m n c)

    either :
        (contains scope n ≡ true) ⊎ (text_eq n m ≡ true)
        → P n ⊎ (contains (names ++ m ∷ []) n ≡ true)
    either (inl old) = kept (h n old)
    either (inr new) = inr (contains_last names m n new)

-- A parameter that the analysis accepts is no special form, and the scope has it at its end.
accepted_param :
    (depth : ℕ) (n : Bytes) (at : Span) (scope : List Bytes)
    → (walk_param depth (expr (symbol n) at) scope).0 ≡ []
    → (is_special_form n ≡ false)
      × ((walk_param depth (expr (symbol n) at) scope).1 ≡ scope ++ n ∷ [])
accepted_param depth n at scope h = tests (is_special_form n) (contains (drop depth scope) n) h
  where
    outcome : Bool → Bool → List Error × List Bytes
    outcome special twice =
        if special
        then (note unbound at shadows_special_form, scope)
        else if twice
        then (note arity_error at fn_param_duplicate, scope)
        else ([], scope ++ n ∷ [])

    tests :
        (special twice : Bool)
        → (outcome special twice).0 ≡ []
        → (special ≡ false) × ((outcome special twice).1 ≡ scope ++ n ∷ [])
    tests true twice h = absurd (ground arith)
    tests false true h = absurd (ground arith)
    tests false false h = (refl, refl)

param_names-Bound :
    (P : Bytes → Type 0) (depth : ℕ) (ps : Exprs) (scope names : List Bytes)
    (k : List Bytes → Program)
    → Outside P scope names
    → (walk_params depth ps scope).0 ≡ []
    → ((names : List Bytes)
        → Outside P (walk_params depth ps scope).1 names
        → BoundProgram (k names))
    → BoundProgram (param_names (items_of ps) names >>= k)
unfolding param_names binding_name
param_names-Bound P depth nil scope names k h hs hk = hk names h
param_names-Bound P depth (cons (expr (literal v) at) ps) scope names k h hs hk = refl
param_names-Bound P depth (cons (expr signal at) ps) scope names k h hs hk = refl
param_names-Bound P depth (cons (expr (attr n) at) ps) scope names k h hs hk = refl
param_names-Bound P depth (cons (expr (list es) at) ps) scope names k h hs hk = refl
param_names-Bound P depth (cons (expr (symbol n) at) ps) scope names k h hs hk =
    let here : List Error × List Bytes = walk_param depth (expr (symbol n) at) scope in
    let parts : (here.0 ≡ []) × ((walk_params depth ps here.1).0 ≡ []) =
      append-parts here.0 (walk_params depth ps here.1).0 hs in
    let name : (is_special_form n ≡ false) × (here.1 ≡ scope ++ n ∷ []) =
      accepted_param depth n at scope parts.0 in
    unless_special (is_special_form n) name.0 (
      param_names-Bound P depth ps here.1 (names ++ n ∷ []) k
        (subst (λ s. Outside P s (names ++ n ∷ [])) (sym name.1) (Outside-param P scope names n h))
        parts.1 hk)
  where
    unless_twice :
        (twice : Bool)
        → BoundProgram (param_names (items_of ps) (names ++ n ∷ []) >>= k)
        → BoundProgram (
            (if twice
              then err (error arity_error at fn_param_duplicate)
              else param_names (items_of ps) (names ++ n ∷ []))
            >>= k)
    unless_twice true h = refl
    unless_twice false h = h

    unless_special :
        (special : Bool)
        → special ≡ false
        → BoundProgram (param_names (items_of ps) (names ++ n ∷ []) >>= k)
        → BoundProgram (
            (elim (if special then err (error unbound at shadows_special_form) else ok n) [
              | err e ↦ err e
              | ok m ↦
                  if any (text_eq m) names
                  then err (error arity_error at fn_param_duplicate)
                  else param_names (items_of ps) (names ++ m ∷ [])
            ])
            >>= k)
    unless_special true e h = absurd (ground arith)
    unless_special false e h = unless_twice (any (text_eq n) names) h

fn_of-Bound :
    (params : Expr) (scope : List Bytes) (body : Expr) (env : Env)
    → Ready scope env
    → (walk_param_list (length scope) params scope).0 ≡ []
    → walk body (walk_param_list (length scope) params scope).1 ≡ []
    → BoundProgram (fn_of params body env)
unfolding fn_of
fn_of-Bound (expr (list ps) at) scope body env h hs hb =
    param_names-Bound (Found env) (length scope) ps scope []
      (λ names. ret (function (closure names body env))) (λ n hn. inl (h.0 n hn)) hs
      (λ names outside. (((walk_params (length scope) ps scope).1, outside, hb), h.1))
fn_of-Bound (expr (literal v) at) scope body env h hs hb = refl
fn_of-Bound (expr (symbol n) at) scope body env h hs hb = refl
fn_of-Bound (expr signal at) scope body env h hs hb = refl
fn_of-Bound (expr (attr n) at) scope body env h hs hb = refl

pub eval_fn-Bound :
    (es : Exprs) (scope : List Bytes) (at : Span) (env : Env)
    → Ready scope env
    → walk_fn es scope ≡ []
    → BoundProgram (eval_fn at (items_of es) env)
unfolding eval_fn walk
eval_fn-Bound nil scope at env h hs = refl
eval_fn-Bound (cons ps nil) scope at env h hs = refl
eval_fn-Bound (cons ps (cons body (cons x xs))) scope at env h hs = refl
eval_fn-Bound (cons ps (cons body nil)) scope at env h hs =
    let parts : ((walk_param_list (length scope) ps scope).0 ≡ [])
        × (walk body (walk_param_list (length scope) ps scope).1 ≡ []) =
      append-parts (walk_param_list (length scope) ps scope).0
        (walk body (walk_param_list (length scope) ps scope).1) hs in
    fn_of-Bound ps scope body env h parts.0 parts.1
