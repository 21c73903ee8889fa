-- ===== src/Risk/ComputeReport.antt =====
-- volengine/risk/application/compute_report.py, with the values of portfolio.py and risk_report.py.
-- The valuation of a position and the spelling of numbers in messages are parameters.
pub mod Honest
use volengine.Base.{
  ℕ, String, Bool, true, false, not, ◌&&◌, ◌||◌, Option, none, some, List, [], ◌∷◌, ◌++◌, length,
  ◌==◌, if◌then◌else◌,
}
use Prim.Native.String.{◌++◌ as followed_by}
use volengine.Base.Results.{
  Result, Error, ok, err, value_error, expired_position, guard, ◌>>=◌, ◌>>◌,
}
use volengine.Base.Instants.{Instant, elapsed, before, require_aware}
use volengine.Base.Floats.{Float}
use volengine.Base.Keys.{◌==◌ as same, string_key}
use volengine.Base.Texts.{is_blank}
use volengine.Platform.Metrics.{Measurement, counter, gauge}
use volengine.Risk.Freshness.{
  FreshnessDecision, normal, degraded, reject, FreshnessPolicy, evaluate,
}
use volengine.Risk.SurfaceView.{SurfaceView}

pub data OptionKindR : Type 0 where
  call put : OptionKindR

pub record Position (F : Type 0) : Type 0 where
  pub underlying : String
  pub expiry : Instant
  pub strike : F
  pub kind : OptionKindR
  pub quantity : F

-- The positions of a `Portfolio`.
abbrev pub Portfolio : Type 0 → Type 0
Portfolio F = List (Position F)

pub record PositionRisk (F : Type 0) : Type 0 where
  pub position : Position F
  pub vol : F
  pub value : F
  pub delta : F
  pub gamma : F
  pub vega : F

pub record RiskReport (F : Type 0) : Type 0 where
  pub market_id : String
  pub producer_id : String
  pub ts_snapshot : Option Instant
  pub ts_report : Instant
  pub freshness : FreshnessDecision
  pub positions : List (PositionRisk F)
  pub message : Option String

module _ {F : Type 0} ⦃f : Float F⦄ where
  unfoldable pub position : Position F → Result (Position F)
  unfolding require_aware
  position p = do
    guard (not (is_blank p.underlying)) value_error
    require_aware p.expiry
    guard (not (not (f.is_finite p.strike) || f.le p.strike (f.of_ℕ 0))) value_error
    guard (f.is_finite p.quantity) value_error
    ok p

  unfoldable pub position_risk_made : PositionRisk F → Result (PositionRisk F)
  position_risk_made r = do
    guard (not (not (f.is_finite r.vol) || f.le r.vol (f.of_ℕ 0))) value_error
    guard (f.is_finite r.value) value_error
    guard (f.is_finite r.delta) value_error
    guard (f.is_finite r.gamma) value_error
    guard (f.is_finite r.vega) value_error
    ok r

-- `not self.message`
unfoldable pub says_nothing : Option String → Bool
says_nothing none = true
says_nothing (some text) = same text ""

-- the checks of `ts_snapshot`
unfoldable pub snapshot_checked : Instant → Option Instant → Result (Unit {0})
unfolding require_aware
snapshot_checked ts_report none = ok tt
snapshot_checked ts_report (some ts) = do
  require_aware ts
  guard (not (before ts_report ts)) value_error

module _ {F : Type 0} where
  unfoldable pub portfolio : List (Position F) → Result (Portfolio F)
  portfolio positions = do guard (not (length positions == 0)) value_error; ok positions

  unfoldable pub content_checked :
      FreshnessDecision → List (PositionRisk F) → Option String → Result (Unit {0})
  unfolding says_nothing
  content_checked reject positions message = do
    guard (length positions == 0) value_error
    guard (not (says_nothing message)) value_error
  content_checked normal positions message = guard (not (length positions == 0)) value_error
  content_checked degraded positions message = guard (not (length positions == 0)) value_error

  -- `RiskReport(...)`
  unfoldable pub risk_report : RiskReport F → Result (RiskReport F)
  unfolding require_aware snapshot_checked content_checked
  risk_report r = do
    guard (not (same r.market_id "")) value_error
    guard (not (same r.producer_id "")) value_error
    require_aware r.ts_report
    snapshot_checked r.ts_report r.ts_snapshot
    content_checked r.freshness r.positions r.message
    ok r

-- What the use case is wired to: the valuation (`position_risk` under the settings), `{age:.1f}` and
-- `str` of an instant.
pub record Wiring (F : Type 0) : Type 0 where
  pub book : Portfolio F
  pub policy : FreshnessPolicy F
  pub expected_producer_id : String
  pub value_of : SurfaceView F → Position F → Result (PositionRisk F)
  pub tenths : F → String
  pub instant_text : Instant → String

unfoldable pub decision_text : FreshnessDecision → String
decision_text normal = "NORMAL"
decision_text degraded = "DEGRADED"
decision_text reject = "REJECT"

module _ {F : Type 0} where
  abbrev with_line :
      PositionRisk F → Result (List (PositionRisk F)) → Result (List (PositionRisk F))
  with_line line rest = rest >>= λ lines. ok (line ∷ lines)

  -- One round of `_value`: `ExpiredPositionError` is caught, and nothing else.
  unfoldable pub valued :
      SurfaceView F
      → Result (PositionRisk F)
      → Result (List (PositionRisk F)) × List (Measurement F)
      → Result (List (PositionRisk F)) × List (Measurement F)
  valued v (ok line) (rest, log) = (with_line line rest, log)
  valued v (err expired_position) (rest, log) = (
    rest,
    counter "risk.position.expired" 1 (("market", v.market_id) ∷ ("producer", v.producer_id) ∷ [])
        ∷ log,
  )
  valued v (err e) (rest, log) = (err e, [])

  -- `_value`: the lines, and the positions counted as expired
  unfoldable pub value_book :
      (SurfaceView F → Position F → Result (PositionRisk F))
      → SurfaceView F
      → List (Position F)
      → Result (List (PositionRisk F)) × List (Measurement F)
  unfolding valued
  value_book value_of v [] = (ok [], [])
  value_book value_of v (p ∷ book) = valued v (value_of v p) (value_book value_of v book)

  -- `_stamp`: `max(now, view.ts_snapshot)`
  unfoldable pub stamp : Instant → SurfaceView F → Instant
  stamp now v = if before now v.ts_snapshot then v.ts_snapshot else now

  -- `_reject`
  unfoldable pub rejected :
      SurfaceView F
      → Instant
      → String
      → List (Measurement F)
      → Result (RiskReport F) × List (Measurement F)
  unfolding risk_report
  rejected v stamped message log = (
    risk_report (record {
      market_id = v.market_id;
      producer_id = v.producer_id;
      ts_snapshot = some v.ts_snapshot;
      ts_report = stamped;
      freshness = reject;
      positions = [];
      message = some message;
    }),
    log
        ++ counter "risk.report.rejected" 1
            (("market", v.market_id) ∷ ("producer", v.producer_id) ∷ [])
          ∷ [],
  )

  unfoldable pub too_old : Wiring F → String → F → String
  too_old k market_id age = followed_by "no valid surface for " (
      followed_by market_id
        (followed_by ": the last snapshot is " (followed_by (k.tenths age) " seconds old")))

  unfoldable pub all_expired : Wiring F → SurfaceView F → String
  all_expired k v =
      followed_by "every position in the book expired at or before " (k.instant_text v.ts_snapshot)

  unfoldable pub note : Wiring F → F → FreshnessDecision → Option String
  note k age normal = none
  note k age _ = some (followed_by "the surface is " (followed_by (k.tenths age) " seconds old"))

  unfoldable pub after_valuing :
      Wiring F
      → SurfaceView F
      → F
      → Instant
      → FreshnessDecision
      → List (Measurement F)
      → Result (List (PositionRisk F))
      → Result (RiskReport F) × List (Measurement F)
  unfolding rejected all_expired note risk_report
  after_valuing k v age stamped decision log (err e) = (err e, log)
  after_valuing k v age stamped decision log (ok []) = rejected v stamped (all_expired k v) log
  after_valuing k v age stamped decision log (ok (line ∷ lines)) = (
    risk_report (record {
      market_id = v.market_id;
      producer_id = v.producer_id;
      ts_snapshot = some v.ts_snapshot;
      ts_report = stamped;
      freshness = decision;
      positions = line ∷ lines;
      message = note k age decision;
    }),
    log,
  )

  unfoldable pub valued_report :
      Wiring F
      → SurfaceView F
      → F
      → Instant
      → FreshnessDecision
      → List (Measurement F)
      → Result (RiskReport F) × List (Measurement F)
  unfolding after_valuing value_book
  valued_report k v age stamped decision log =
      let (lines, counted) = value_book k.value_of v k.book in
      after_valuing k v age stamped decision (log ++ counted) lines

  unfoldable pub after_decision :
      Wiring F
      → String
      → SurfaceView F
      → F
      → Instant
      → List (Measurement F)
      → FreshnessDecision
      → Result (RiskReport F) × List (Measurement F)
  unfolding rejected too_old valued_report
  after_decision k market_id v age stamped log reject =
      rejected v stamped (too_old k market_id age) log
  after_decision k market_id v age stamped log normal = valued_report k v age stamped normal log
  after_decision k market_id v age stamped log degraded = valued_report k v age stamped degraded log

  unfoldable pub observe_age : String → SurfaceView F → F → FreshnessDecision → List (Measurement F)
  unfolding decision_text
  observe_age market_id v age decision =
      gauge "risk.surface_age_seconds" age
        (("market", market_id) ∷ ("producer", v.producer_id) ∷ [])
      ∷ counter "risk.report.freshness" 1 (
          ("market", market_id)
          ∷ ("producer", v.producer_id)
          ∷ ("decision", decision_text decision)
          ∷ [])
      ∷ []

  unfoldable pub after_evaluation :
      Wiring F
      → String
      → SurfaceView F
      → F
      → Instant
      → List (Measurement F)
      → Result FreshnessDecision
      → Result (RiskReport F) × List (Measurement F)
  unfolding after_decision observe_age
  after_evaluation k market_id v age stamped log (err e) = (err e, log)
  after_evaluation k market_id v age stamped log (ok decision) =
      after_decision k market_id v age stamped (log ++ observe_age market_id v age decision)
        decision

module _ {F : Type 0} ⦃f : Float F⦄ where
  -- `compute`, with the clock's reading and what `provider.latest(market_id)` gave
  unfoldable pub compute :
      Wiring F
      → String
      → Instant
      → Option (SurfaceView F)
      → List (Measurement F)
      → Result (RiskReport F) × List (Measurement F)
  unfolding after_evaluation stamp evaluate risk_report
  compute k market_id now none log = (
    risk_report (record {
      market_id = market_id;
      producer_id = k.expected_producer_id;
      ts_snapshot = none;
      ts_report = now;
      freshness = reject;
      positions = [];
      message = some (followed_by "no surface has been published for " market_id);
    }),
    log
        ++ counter "risk.report.rejected" 1 (("market", market_id) ∷ ("reason", "no_surface") ∷ [])
          ∷ [],
  )
  compute k market_id now (some v) log =
      after_evaluation k market_id v (f.seconds (elapsed now v.ts_snapshot)) (stamp now v) log
        (evaluate k.policy v.ts_snapshot now)
