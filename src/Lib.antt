-- ===== src/Lib.antt =====
-- eieio: a model of the parts of the repository that decide what a node computes and where its
-- signals go, and proofs about it.
--
-- The program. A service wires blocks together. Signals are maps of CBOR-like values (crates/signal);
-- block properties are expressions over them (crates/expr), parsed once, analysed, and evaluated for
-- each signal under budgets. What a block emits is carried along the service's connections, which
-- are resolved to indices when the service starts (crates/host-core/src/router.rs). A block is a guest
-- behind an engine: the host drives it through its lifecycle (instance.rs), hands it batches through
-- its memory (memory.rs), and answers its imports (core_fns.rs, prop.rs, state.rs, timer.rs), whose
-- `i32` answers crates/abi says how to read. `prop` evaluates the block's expressions at the signals of
-- the batch that is being processed, once for each, in a scope that the driver opens and closes. On a
-- leaf a cooperative pump fires the timers that blocks set (crates/leaf/src/timer.rs).
--
-- The files.
--   Base and its children are shared helpers: Boolean tests, lists over the native numbers,
--   integers with the range of `i64`, machine words, texts as bytes, results.
--   Abi is crates/abi/src: error codes, levels, and the conventions of returns; Codes is about them.
--   Signal/Value is crates/signal/src/value.rs: values, lookup and the size of the canonical encoding.
--   Expr/Syntax is crates/expr/src/span.rs, error.rs, form.rs, ast.rs, budget.rs and the limits of
--   parse.rs. A message is one constructor of `Message`.
--   Expr/Builtin is the table of crates/expr/src/builtin/mod.rs; its children are how arguments are
--   read (Access), the builtins of arith.rs, compare.rs and collect.rs (Arith, Compare, Collect), and
--   what each row runs (Table); Reads and the Keeps modules are about predicates that the table keeps.
--   The texts' and the conversions' rows are a parameter of the table.
--   Expr/Num is crates/expr/src/num.rs. A float is its 64-bit pattern; the order and the sign are
--   computed on patterns, the roundings of IEEE 754 are the parameter `Floats`. Its child Floor
--   is about floor division.
--   Expr/Lexer with Expr/Tokens, Literals and Escapes is crates/expr/src/lex.rs over bytes, and
--   Expr/Parser crates/expr/src/parse.rs; reading a float literal is a parameter. Their children follow the bytes that are left (Lexer/Onward,
--   Lexer/Strings, Lexer/Taken) to the parser's steps (Parser/Taking) and the end of every parse (Parser/Ends).
--   Expr/Analyze is crates/expr/src/analyze.rs; its children say what an accepted expression may still
--   run (Bound), for the special forms (Forms, Binders) and lists (Lists), up to whole evaluations (Names).
--   Expr/Program is what an evaluation does to the evaluator's state (`fuel_spent`, `depth`): a
--   program of the steps `spend`, `nest` (`enter` and `leave` around a program) and `ask` (a call of
--   `eval_operand` or `apply`), with its interpreter. Expr/Eval is crates/expr/src/eval.rs, one
--   definition for each of its functions. How a value is held (`Shared`: inline, borrowed, counted)
--   is erased, since values never change. Its children are about the budgets (Budgets), the end of
--   evaluations (Ends), constant folding (Blind, Folding) and any predicate that a program keeps (Obeys).
--   Host/Router is crates/host-core/src/router.rs; `none` of `resolve` and of a
--   lookup (`targets`, `outgoing`, `deliveries`) is a panic: a slice or an index out of range. Its
--   children follow the stable sort (Sort), the runs of the table (Table, Runs, Ranges), the binary
--   search (Search) and the names (Names) to the lookups (Lookup), their panics (Panics), and the
--   delivery of batches (Fanout).
--   Host/Engine is what crosses the engine boundary (crates/host-core/src/engine.rs), with guest memory
--   as a list of bytes that is read and written by `memory_range`; Linear is about that memory.
--   Host/Memory is memory.rs: `Inbound`, `Outbound` and `OutBuffer`; Fill is about the out-buffers.
--   Host/State and Host/Timers are the handlers of state.rs and timer.rs over the traits `StateStore`
--   and `Timers`, which are records; PutGet is about a put and a get, and Leaf/Timer/Imports has the
--   leaf's scheduler as such a `Timers`.
--   Host/CoreFns is core_fns.rs: the state that the handlers share, `emit`, `log`, `error`, the clocks
--   and `rand`; Emitting and Filling are about `emit` and `rand`.
--   Host/Prop is the context of prop.rs: `answer` with its cache, and the scopes; Types is the types of
--   properties (crates/manifest/src/schema.rs) and `evaluate`, which runs the evaluator of Expr/Eval;
--   Compile is `compile_with_limits`, over the parser and the analysis. Cache and Folded are about them.
--   Host/Instance is instance.rs, its three states one record each. The properties' state is shared
--   between the driver and the imports, so the engine works on a pair of that state and the guest.
--   Delivers is about one delivery, Driven and Started about a whole life.
--   Daemon/Outlet is the outlet of an instance (crates/daemon/src/router.rs): `route`, `flush` and
--   `deliver` over channels that are a parameter, and `turn`, the round after a callback (instance.rs);
--   their `none` is a lookup that panics.
--   What happens in other threads meanwhile is in the channels' state. Its children are
--   about the rounds of a turn (Rounds), what they leave as it was (Frames), what becomes of each batch
--   (Conserved), what is held (Slots) and which deliveries wait (Waiting).
--   Manifest/Pattern and Manifest/Names are crates/manifest/src/name.rs: the regular expressions that it
--   publishes, with what a regular expression matches, and the validators. Names/Splitting is about
--   `split`, Names/Identifiers about the parts of a version, Shape and Version about the validators.
--   Service/Connection is crates/service/src/connection.rs with the errors of error.rs. A text is its
--   characters, and offsets count their UTF-8 bytes (Service/Text); `Terminal::parse` is
--   `parse_terminal`, split at its returns. Its children are about slices of texts (Texts), the
--   arrow (Arrows), one end (Terminals) and every answer (Explained).
--   Leaf/Timer is the scheduler of crates/leaf/src/timer.rs with its pump; the clock is an argument,
--   the guest's callback a parameter that may set and cancel timers.
--   Due is about the timers that are due, Counting about the calls of callbacks, Pumping about the pump.
--
-- Bounds. `usize` has 64 bits; the depth counter is not cut off, as it stays within `max_depth`. The
-- fuel counter saturates at the largest `u32`, as in the source. Recursion of the evaluator is on fuel
-- of the model, `enough`, two tasks for each step of the source's own budget. The parser's fuel is two
-- for each byte and three, since each token is taken from the bytes. The pump's fuel is counted by the
-- timers that are due. `rand` has one round for each byte and one more, and a chunk has at least one
-- byte. Counts that are `u32` in the source wrap, as in a build without overflow checks: the length of
-- a run of the table and a timer's id. So does a timer's due time, an `i64`.
-- A guest's memory has at most 2^32 bytes, as its pointers are `u32`.
--
-- Not modelled: the CBOR coder (it stands on a library; encoders and decoders are arguments), the text
-- and conversion builtins, the registration of the imports with an engine, the JSON and TOML
-- documents, the daemon's tasks and HTTP service, the tools and the designer.

pub mod Abi
pub mod Base
pub mod Daemon
pub mod Expr
pub mod Host
pub mod Leaf
pub mod Manifest
pub mod Service
pub mod Signal
