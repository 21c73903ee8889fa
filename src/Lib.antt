-- ===== src/Lib.antt =====
-- Volengine: a market data to risk engine for listed options, in Python. This library models the state
-- and the decisions of its bounded contexts; the package is src/volengine.
--
-- The parts and how they interact. A feed fills the quote chain; the snapshot cycle asks the snapshot
-- policy, freezes the chain and translates it into a snapshot for the conflating bus. Two producers, the
-- parametric and the neural one, answer each snapshot with a calibrated surface on the same bus, or with
-- a failure and the last good surface. The risk context translates a surface into its own view, keeps
-- the last one of each market and producer, and judges its age before it reports.
-- Every subscriber is served by a runner, which holds one mailbox of the bus and one handler.
--
-- The files:
-- - Base and its children: numbers, tests, lists, results, instants, floats and dictionaries.
-- - Platform/Bus: `_Mailbox` and `InProcessConflatingBus` of src/volengine/platform/bus.py. A mailbox is
--   an object that the bus and the subscriber share, so the mailboxes are on a heap, `boxes`, and both
--   name one by its position. Bus/Wiring resolves the topic table, Bus/Sessions runs the operations in
--   any order, Bus/Balance keeps the books, Bus/Conflation states the promises.
-- - Kernel/Black76: src/volengine/shared_kernel/domain/black76.py, over the functions of Kernel/Elementary;
--   Search below it is the search that the solver is shown to run.
-- - Platform/Runner: `BusRunner` of src/volengine/platform/runner.py. Platform/Metrics: the metrics port.
-- - Contracts/Surface, Contracts/Snapshot and Contracts/Events: src/volengine/contracts, the constructors
--   with their checks; the WireFormat below each is `to_dict` and `from_dict`, over the JSON values and
--   the readers of Contracts/Wire.
-- - Market/SnapshotPolicy: src/volengine/market_data/domain/snapshot_policy.py, and `ChainStats` of
--   quote_chain.py beside it. Market/Quotes: option_quote.py. Market/Conventions,
--   Market/Forward and Market/Admissibility: the modules of domain/ with those names. Market/QuoteChain:
--   the writes of `QuoteChain` in quote_chain.py; its sets of instruments are lists that hold each one
--   once. Market/ChainSnapshot: its reads, `stats`, `snapshot` and the slices that both build.
-- - Market/Acl, Market/BuildSnapshot and Market/IngestStream: the modules of
--   src/volengine/market_data/application. A session of the ingestion is a list of moments: discovery,
--   updates, polls and heartbeats, in any order.
-- - Market/Recorder and Market/Recorded: recorder.py and recorded.py of
--   src/volengine/market_data/adapters. A file is the list of its lines.
-- - Pricing/State: src/volengine/parametric_pricing/application/calibration_state.py. Pricing/Calibration:
--   domain/calibration.py. Pricing/Acl and Pricing/Publication: application/acl.py and grid_spec.py.
--   Pricing/CalibrateOnSnapshot: the handler of application/calibrate_on_snapshot.py. Pricing/Black76:
--   domain/black76.py.
-- - Neural/Training: `TrainingSample` of src/volengine/neural_surface/domain/training_batch.py and
--   application/training_state.py. Neural/Stratification and Neural/Buffer:
--   domain/replay_buffer.py.
-- - Risk/Freshness, Risk/SurfaceView and Risk/SurfaceCache: src/volengine/risk/domain/freshness_policy.py,
--   domain/surface_view.py, application/acl.py and application/surface_cache.py. Risk/ComputeReport:
--   application/compute_report.py, with the values of domain/portfolio.py and domain/risk_report.py.
--   Risk/Interpolation: domain/interpolation.py and the lookups of domain/surface_view.py. Risk/Valuation:
--   domain/valuation.py. Risk/Comparison: domain/comparison.py and application/compare_producers.py.
-- - The Outcomes below a handler or a cycle: the ways in which a call of it can end.
-- - The Examples of each part: the theorems applied to concrete values.
--
-- How the code is modelled:
-- - A float is a parameter, `Float F`, with its operations; a theorem names the laws of IEEE comparison
--   that it relies on (`IsOrdered`), in which a NaN is a value that is not below itself. Base/Fixed is an
--   instance with a NaN for which the laws are proved.
-- - An instant is a count of microseconds with a mark for the zone. A reading of the clock is an argument
--   of the operation that makes it.
-- - A method that changes its object takes the state and returns it; one that raises returns a `Result`
--   beside the state it leaves. A constructor with checks is a function to `Result`, the checks in order.
-- - A dictionary is an association list in insertion order. Counts are naturals.
-- - `await` on an empty mailbox is the result `waiting`; a session is a list of operations, in whatever
--   order the event loop runs them, and the theorems are about every such list.
-- - NumPy's `Generator.permutation`, a handler, a trained network and the parameters of a fit are
--   parameters of the definitions that use them; so are `isoformat` with its inverse, the spelling of a
--   number in an f-string, `json.dumps` with `json.loads`, `math.sqrt`, `math.exp`, `math.erfc` and
--   `math.fsum`, the calibrator with the Black-76 and the smile that its use case calls, and the valuation
--   that a report calls, which Risk/Comparison fills with `position_risk`.
-- - No definition runs on fuel but the two that are named `rounds`: the loop of the draw over the depths
--   of its pools, as many rounds as the deepest pool has samples, and the loop of the Black-76 solver, a
--   hundred rounds. Both are what the code iterates over.
--
-- Not modelled: the venues' adapters, files and the command line (input and output); the optimisers on
-- SciPy, JAX and Torch and the closed forms that they evaluate (numerical libraries); and the use
-- case of the neural context. `flag_surface` computes nothing.
pub mod Base
pub mod Kernel
pub mod Platform
pub mod Contracts
pub mod Market
pub mod Pricing
pub mod Neural
pub mod Risk
