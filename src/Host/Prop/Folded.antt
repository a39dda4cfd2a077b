-- ===== src/Host/Prop/Folded.antt =====
-- About what `compile_with_limits` makes of the properties (crates/host-core/src/prop.rs).
use mathlib.Core.Option.{some-injective}
use eieio.Base.{
  ℕ, suc, ◌%◌, ◌^◌, ◌≡◌, refl, sym, ap, ◌∙◌, subst, Bool, true, false, Option, none, some, List, [],
  ◌∷◌, ◌++◌, arith, Result, ok, err, ok-injective, Bytes, append-nil, append_assoc,
}
use eieio.Signal.Value.{Value, Entries}
use eieio.Expr.Syntax.{
  Expr, Error, EvalLimits, clamp_eval_limits, default_parse_limits, is_signal_dependent,
}
use eieio.Expr.Parser.{parse_with_limits}
use eieio.Expr.Analyze.{analyze}
use eieio.Expr.Num.{Floats}
use eieio.Expr.Eval.{Implementation, eval_with_limits, value_of, fresh}
use eieio.Expr.Eval.Blind.{BlindImplementation}
use eieio.Expr.Eval.Folding.{eval_constant}
use eieio.Host.Prop.Types.{PropertyType}
use eieio.Host.Prop.Types as Types
use eieio.Host.Prop.{Answer, Body, unset, per_signal, folded, Compiled, PropFailure, PropContext}
use eieio.Host.Prop.Compile.{
  PropertySource, PropertyError, Draft, no_draft, BodyResult, added, unless_rejected, finished,
  folding, compile_expr, compile_parsed, compile_one, compile_source, goes_on, compile_all, compile,
  symbol_in,
}

module _ (read_f64 : Bytes → Option ℕ) (F : Floats) (implementation : Implementation)
    (to_cbor : Value → Bytes) (limits : EvalLimits) where
  abbrev pub evaluates : Expr → PropertyType → Option Entries → Option Answer
  evaluates = Types.evaluate F implementation to_cbor limits

  -- The source is that of an expression, and the analysis has nothing against it.
  abbrev pub Parsed : Option Bytes → Expr → Type 0
  Parsed source e =
      (text : Bytes) × (source ≡ some text)
      × (parse_with_limits read_f64 default_parse_limits text ≡ some (ok e))
      × ((analyze e).diagnostics ≡ [])

  -- What a body has to be, for a property with this source, at a signal.
  abbrev pub Meets : Option Entries → Option Bytes → PropertyType → Body → Type 0
  Meets fields source ty unset = source ≡ none
  Meets fields source ty (per_signal e) = Parsed source e × (is_signal_dependent e ≡ true)
  Meets fields source ty (folded answer) =
      (e : Expr) × Parsed source e
      × (is_signal_dependent e ≡ false)
      × (evaluates e ty fields ≡ some answer)

  pub data MeetAll (fields : Option Entries) : List PropertySource → List Compiled → Type 0 where
    none_left : MeetAll fields [] []
    one_more :
        (p : PropertySource) (c : Compiled)
        → (c.name ≡ p.name) × (c.ty ≡ p.ty) × Meets fields p.source p.ty c.body
        → {props : List PropertySource} {compiled : List Compiled} → MeetAll fields props compiled
        → MeetAll fields (p ∷ props) (c ∷ compiled)

  module _ (blind : BlindImplementation implementation) (fields : Option Entries) where
    constant :
        (e : Expr) (ty : PropertyType)
        → is_signal_dependent e ≡ false
        → evaluates e ty fields ≡ evaluates e ty none
    unfolding Types.evaluate eval_with_limits
    constant e ty free =
        ap (λ r. Types.conformed F implementation to_cbor e ty (value_of r))
          (eval_constant implementation blind (clamp_eval_limits limits) e fields none fresh free)

    -- What a compiled body, or none, has to be.
    abbrev Compiles : Option Bytes → PropertyType → Option BodyResult → Type 0
    Compiles source ty none = Unit {0}
    Compiles source ty (some (err e)) = Unit {0}
    Compiles source ty (some (ok (body, failures))) = Meets fields source ty body

    folding-Compiles :
        (source : Option Bytes) (ty : PropertyType) (prop_id : ℕ) (e : Expr) (o : Option Answer)
        → Parsed source e
        → is_signal_dependent e ≡ false
        → evaluates e ty fields ≡ o
        → Compiles source ty (folding read_f64 evaluates prop_id o)
    folding-Compiles source ty prop_id e none parsed free now = tt
    folding-Compiles source ty prop_id e (some answer) parsed free now = (e, parsed, free, now)

    expr-Compiles :
        (text : Bytes) (ty : PropertyType) (prop_id : ℕ) (e : Expr) (errors : List Error)
        (dependent : Bool)
        → parse_with_limits read_f64 default_parse_limits text ≡ some (ok e)
        → (analyze e).diagnostics ≡ errors
        → is_signal_dependent e ≡ dependent
        → Compiles (some text) ty (compile_expr read_f64 evaluates e ty prop_id errors dependent)
    unfolding compile_expr
    expr-Compiles text ty prop_id e (error ∷ errors) dependent parsed clean is = tt
    expr-Compiles text ty prop_id e [] true parsed clean is = ((text, refl, parsed, clean), is)
    expr-Compiles text ty prop_id e [] false parsed clean is =
        folding-Compiles (some text) ty prop_id e (evaluates e ty none) (text, refl, parsed, clean)
          is (constant e ty is)

    parsed-Compiles :
        (text : Bytes) (ty : PropertyType) (prop_id : ℕ) (r : Option (Result Error Expr))
        → parse_with_limits read_f64 default_parse_limits text ≡ r
        → Compiles (some text) ty (compile_parsed read_f64 evaluates ty prop_id r)
    unfolding compile_parsed analyze
    parsed-Compiles text ty prop_id none h = tt
    parsed-Compiles text ty prop_id (some (err e)) h = tt
    parsed-Compiles text ty prop_id (some (ok e)) h =
        expr-Compiles text ty prop_id e (analyze e).diagnostics (is_signal_dependent e) h refl refl

    source-Compiles :
        (source : Option Bytes) (ty : PropertyType) (prop_id : ℕ)
        → Compiles source ty (compile_source read_f64 evaluates ty prop_id source)
    unfolding compile_source compile_one
    source-Compiles none ty prop_id = refl
    source-Compiles (some text) ty prop_id =
        parsed-Compiles text ty prop_id (parse_with_limits read_f64 default_parse_limits text) refl

    -- What the loop adds to a draft: a body for each of the properties, unless something is rejected.
    abbrev Adds : List PropertySource → Draft → Option Draft → Type 0
    Adds props draft none = Unit {0}
    Adds props draft (some draft') =
        (bodies : List Compiled) × (rejected : List PropertyError) × (draft'.compiled
          ≡ draft.compiled ++ bodies)
        × (draft'.rejected ≡ draft.rejected ++ rejected)
        × (rejected ≡ [] → MeetAll fields props bodies)

    rejection-Adds :
        (p : PropertySource) (props : List PropertySource) (prop_id : ℕ) (draft : Draft) (e : Error)
        (o : Option Draft)
        → Adds props (added p prop_id draft (err e)) o
        → Adds (p ∷ props) draft o
    rejection-Adds p props prop_id draft e none h = tt
    rejection-Adds p props prop_id draft e (some d) (bodies, rejected, compiled, errors, meets) =
        let x : PropertyError = record {
          prop_id = prop_id;
          name = p.name;
          error = e;
          symbol = symbol_in e p.source;
        } in
        (
          bodies,
          x ∷ rejected,
          compiled,
          errors ∙ append_assoc draft.rejected (x ∷ []) rejected,
          λ empty. absurd (cc empty),
        )

    body-Adds :
        (p : PropertySource) (props : List PropertySource) (prop_id : ℕ) (draft : Draft)
        (body : Body) (failures : List PropFailure) (o : Option Draft)
        → Meets fields p.source p.ty body
        → Adds props (added p prop_id draft (ok (body, failures))) o
        → Adds (p ∷ props) draft o
    body-Adds p props prop_id draft body failures none meets h = tt
    body-Adds p props prop_id draft body failures (some d) meets
          (bodies, rejected, compiled, errors, rest) =
        let c : Compiled = record { name = p.name; ty = p.ty; body = body } in
        (
          c ∷ bodies,
          rejected,
          compiled ∙ append_assoc draft.compiled (c ∷ []) bodies,
          errors,
          λ empty. one_more p c (refl, refl, meets) (rest empty),
        )

    goes_on-Adds :
        (rest : Draft → Option Draft) (p : PropertySource) (prop_id : ℕ)
        (props : List PropertySource) (draft : Draft) (r : Option BodyResult)
        → Compiles p.source p.ty r
        → ((d : Draft) → Adds props d (rest d))
        → Adds (p ∷ props) draft (goes_on read_f64 evaluates rest p prop_id draft r)
    goes_on-Adds rest p prop_id props draft none c later = tt
    goes_on-Adds rest p prop_id props draft (some (err e)) c later =
        rejection-Adds p props prop_id draft e _ (later (added p prop_id draft (err e)))
    goes_on-Adds rest p prop_id props draft (some (ok (body, failures))) c later =
        body-Adds p props prop_id draft body failures _ c
          (later (added p prop_id draft (ok (body, failures))))

    all-Adds :
        (props : List PropertySource) (prop_id : ℕ) (draft : Draft)
        → Adds props draft (compile_all read_f64 evaluates prop_id props draft)
    unfolding compile_all
    all-Adds [] prop_id draft =
        ([], [], sym (append-nil draft.compiled), sym (append-nil draft.rejected), λ _. none_left)
    all-Adds (p ∷ props) prop_id draft =
        goes_on-Adds (compile_all read_f64 evaluates (suc prop_id) props) p (prop_id % 2 ^ 32) props
          draft (compile_source read_f64 evaluates p.ty (prop_id % 2 ^ 32) p.source)
          (source-Compiles p.source p.ty (prop_id % 2 ^ 32)) (all-Adds props (suc prop_id))

    -- A context comes of a draft that nothing was rejected from.
    context-MeetAll :
        (props : List PropertySource) (o : Option Draft) (context : PropContext)
        → Adds props no_draft o
        → finished o ≡ some (ok context)
        → MeetAll fields props context.props
    context-MeetAll props none context adds is = absurd (ground arith)
    context-MeetAll props (some draft) context (bodies, rejected, compiled, errors, meets) is =
        go draft.rejected errors is
      where
        go :
            (list : List PropertyError)
            → list ≡ rejected
            → some (unless_rejected list draft) ≡ some (ok context)
            → MeetAll fields props context.props
        go (e ∷ list) same is = absurd (ground arith)
        go [] same is =
            let props_are : draft.compiled ≡ context.props =
              ap (λ (c : PropContext). c.props) (ok-injective (some-injective _ _ is)) in
            subst (MeetAll fields props) (sym compiled ∙ props_are) (meets (sym same))

-- A context that compiles has, in order, one property for each that was given, with its name and its
-- type: an unset one for one without a source; one that is evaluated for each signal for a source
-- that depends on the signal; and one that is folded for a source that does not, whose answer is what
-- evaluating the source gives at every signal and at none. Each source parses, and the analysis has
-- nothing against it. The builtins are to handle only the operands they are given.
pub compile-MeetAll :
    (read_f64 : Bytes → Option ℕ) (F : Floats) (implementation : Implementation)
    (to_cbor : Value → Bytes) (limits : EvalLimits) (fields : Option Entries)
    (props : List PropertySource) (context : PropContext)
    → BlindImplementation implementation
    → compile read_f64 (evaluates read_f64 F implementation to_cbor limits) props
      ≡ some (ok context)
    → MeetAll read_f64 F implementation to_cbor limits fields props context.props
unfolding compile
compile-MeetAll read_f64 F implementation to_cbor limits fields props context blind is =
    context-MeetAll read_f64 F implementation to_cbor limits blind fields props _ context
      (all-Adds read_f64 F implementation to_cbor limits blind fields props 0 no_draft) is
