-- ===== src/Risk/ComputeReport/Honest.antt =====
-- A report always comes out, and it says what it is.
use volengine.Base.{
  ◌≤◌, ◌<◌, ◌≡◌, refl, ap, ◌⊎◌, inl, inr, arith, Bool-cases, String, true, false, Option, some,
  List, [], ◌∷◌, All,
}
use Prim.Native.String.{◌++◌ as followed_by}
use text.Mathlib.TextLemmas.{length-append as count-append}
use text.Mathlib.TextEquality.{eq_iff}
use Prim.Native.String.{count}
use volengine.Base.Results.{Result, ok, err, expired_position}
use volengine.Base.Instants.{Instant, elapsed, require_aware}
use volengine.Base.Floats.{Float}
use volengine.Base.Keys.{◌==◌ as same, string_key}
use volengine.Platform.Metrics.{Measurement}
use volengine.Risk.Freshness.{
  FreshnessDecision, normal, degraded, reject, FreshnessPolicy, evaluate, judge_age,
}
use volengine.Risk.SurfaceView.{SurfaceView}
use volengine.Risk.ComputeReport.{
  Position, PositionRisk, RiskReport, risk_report, says_nothing, snapshot_checked, content_checked,
  Wiring, valued, value_book, stamp, rejected, too_old, all_expired, note, after_valuing,
  valued_report, after_decision, after_evaluation, compute,
}

-- A message that starts with words is not empty.
words : (head tail : String) → 0 < count head → same (followed_by head tail) "" ≡ false
words head tail h = elim (Bool-cases (same (followed_by head tail) "")) [
  | inr said ↦ said
  | inl blank ↦
      let none_left : count (followed_by head tail) ≡ 0 = ap count ((eq_iff _ _).0 blank) in
      absurd (omega (arith, h, none_left, count-append head tail))
]

-- What a report on a surface says of itself, for the policy's decision on the surface's age.
pub record IsHonest {F : Type 0} (decision : FreshnessDecision) (v : SurfaceView F) (now : Instant)
    (r : RiskReport F) : Type 0 where
  pub of_surface : r.ts_snapshot ≡ some v.ts_snapshot
  pub not_early : v.ts_snapshot.micros ≤ r.ts_report.micros
  pub on_time : now.micros ≤ r.ts_report.micros
  pub judged :
      ((r.freshness ≡ reject) × (r.positions ≡ []))
      ⊎ ((r.freshness ≡ decision) × ¬ (decision ≡ reject) × ¬ (r.positions ≡ []))

module _ {F : Type 0} where
  -- The valuation gives a line, or says that the position has expired.
  abbrev pub Values :
      (SurfaceView F → Position F → Result (PositionRisk F)) → SurfaceView F → Position F → Type 0
  Values value_of v p =
      ((line : PositionRisk F) × (value_of v p ≡ ok line)) ⊎ (value_of v p ≡ err expired_position)

  value_book_total :
      (value_of : SurfaceView F → Position F → Result (PositionRisk F)) (v : SurfaceView F)
      (book : List (Position F))
      → All (Values value_of v) book
      → (lines : List (PositionRisk F)) × ((value_book value_of v book).0 ≡ ok lines)
  unfolding value_book valued
  value_book_total value_of v [] h = ([], refl)
  value_book_total value_of v (p ∷ book) (here, later) =
      let (lines, rest) = value_book_total value_of v book later in
      elim here [
        | inl (line, made) ↦ (line ∷ lines, rw (made, rest) refl)
        | inr expired ↦ (lines, rw (expired, rest) refl)
      ]

  risk_report_made :
      (r : RiskReport F)
      → same r.market_id "" ≡ false
      → same r.producer_id "" ≡ false
      → r.ts_report.aware ≡ true
      → snapshot_checked r.ts_report r.ts_snapshot ≡ ok tt
      → content_checked r.freshness r.positions r.message ≡ ok tt
      → risk_report r ≡ ok r
  unfolding risk_report require_aware
  risk_report_made r a b c d e = rw (a, b, c, d, e) refl

  -- A surface that the view's constructor accepted, as far as a report repeats it.
  pub record IsReportable (v : SurfaceView F) : Type 0 where
    pub named : same v.market_id "" ≡ false
    pub produced : same v.producer_id "" ≡ false
    pub dated : v.ts_snapshot.aware ≡ true

  stamp_bounds :
      (now : Instant) (v : SurfaceView F)
      → (v.ts_snapshot.micros ≤ (stamp now v).micros) × (now.micros ≤ (stamp now v).micros)
  unfolding stamp
  stamp_bounds now v = ground arith

  stamp_checked :
      (now : Instant) (v : SurfaceView F)
      → IsReportable v
      → now.aware ≡ true
      → ((stamp now v).aware ≡ true) × (snapshot_checked (stamp now v) (some v.ts_snapshot) ≡ ok tt)
  unfolding stamp snapshot_checked require_aware
  stamp_checked now v h a = ground (arith, h.dated)

  -- A call that gave an honest report.
  abbrev Reports :
      FreshnessDecision
      → SurfaceView F
      → Instant
      → Result (RiskReport F) × List (Measurement F)
      → Type 0
  Reports decision v now out = (r : RiskReport F) × (out.0 ≡ ok r) × IsHonest decision v now r

  -- The report of a refusal.
  abbrev refusal : SurfaceView F → Instant → String → RiskReport F
  refusal v stamped message = record {
    market_id = v.market_id;
    producer_id = v.producer_id;
    ts_snapshot = some v.ts_snapshot;
    ts_report = stamped;
    freshness = reject;
    positions = [];
    message = some message;
  }

  refusal_checked :
      (v : SurfaceView F) (stamped : Instant) (message : String)
      → same message "" ≡ false
      → let r = refusal v stamped message in
        content_checked r.freshness r.positions r.message ≡ ok tt
  unfolding content_checked says_nothing
  refusal_checked v stamped message h = rw h refl

  rejected-Reports :
      (decision : FreshnessDecision) (now : Instant) (v : SurfaceView F) (message : String)
      (log : List (Measurement F))
      → IsReportable v
      → now.aware ≡ true
      → same message "" ≡ false
      → Reports decision v now (rejected v (stamp now v) message log)
  unfolding rejected
  rejected-Reports decision now v message log h a said =
      let (aware, checked) = stamp_checked now v h a in
      let (later, on_time) = stamp_bounds now v in
      (
        refusal v (stamp now v) message,
        risk_report_made (refusal v (stamp now v) message) h.named h.produced aware checked
            (refusal_checked v (stamp now v) message said),
        record {
          of_surface = refl;
          not_early = later;
          on_time = on_time;
          judged = inl (refl, refl);
        },
      )

  content_of_lines :
      (decision : FreshnessDecision) (line : PositionRisk F) (lines : List (PositionRisk F))
      (message : Option String)
      → ¬ (decision ≡ reject)
      → content_checked decision (line ∷ lines) message ≡ ok tt
  unfolding content_checked
  content_of_lines normal line lines message h = ground arith
  content_of_lines degraded line lines message h = ground arith
  content_of_lines reject line lines message h = absurd (h refl)

  after_valuing-Reports :
      (k : Wiring F) (v : SurfaceView F) (age : F) (now : Instant) (decision : FreshnessDecision)
      (log : List (Measurement F)) (lines : List (PositionRisk F))
      → IsReportable v
      → now.aware ≡ true
      → ¬ (decision ≡ reject)
      → Reports decision v now (after_valuing k v age (stamp now v) decision log (ok lines))
  unfolding after_valuing all_expired
  after_valuing-Reports k v age now decision log [] h a d =
      rejected-Reports decision now v _ log h a (
        words "every position in the book expired at or before " (k.instant_text v.ts_snapshot)
          (omega arith))
  after_valuing-Reports k v age now decision log (line ∷ lines) h a d =
      let (aware, checked) = stamp_checked now v h a in
      let (later, on_time) = stamp_bounds now v in
      (
        _,
        risk_report_made _ h.named h.produced aware checked
            (content_of_lines decision line lines (note k age decision) d),
        record {
          of_surface = refl;
          not_early = later;
          on_time = on_time;
          judged = inr (refl, d, λ none_left. cc);
        },
      )

  valued-Reports :
      (k : Wiring F) (v : SurfaceView F) (age : F) (now : Instant) (decision : FreshnessDecision)
      (log : List (Measurement F))
      → All (Values k.value_of v) k.book
      → IsReportable v
      → now.aware ≡ true
      → ¬ (decision ≡ reject)
      → Reports decision v now (valued_report k v age (stamp now v) decision log)
  unfolding valued_report
  valued-Reports k v age now decision log valuable h a d =
      let (lines, all_lines) = value_book_total k.value_of v k.book valuable in
      rw all_lines (after_valuing-Reports k v age now decision _ lines h a d)

  decided-Reports :
      (k : Wiring F) (market_id : String) (v : SurfaceView F) (age : F) (now : Instant)
      (log : List (Measurement F)) (decision : FreshnessDecision)
      → All (Values k.value_of v) k.book
      → IsReportable v
      → now.aware ≡ true
      → Reports decision v now (after_decision k market_id v age (stamp now v) log decision)
  unfolding after_decision too_old
  decided-Reports k market_id v age now log reject valuable h a =
      rejected-Reports reject now v _ log h a (words "no valid surface for " _ (omega arith))
  decided-Reports k market_id v age now log normal valuable h a =
      valued-Reports k v age now normal log valuable h a (λ e. cc)
  decided-Reports k market_id v age now log degraded valuable h a =
      valued-Reports k v age now degraded log valuable h a (λ e. cc)

module _ {F : Type 0} ⦃f : Float F⦄ where
  evaluate_aware :
      (policy : FreshnessPolicy F) (ts now : Instant)
      → ts.aware ≡ true
      → now.aware ≡ true
      → evaluate policy ts now ≡ ok (judge_age policy (f.seconds (elapsed now ts)))
  unfolding evaluate require_aware
  evaluate_aware policy ts now a b = ground (arith, a, b)

  -- A report always comes out, and it is honest. On any surface that a view can hold, at any aware
  -- instant, with a valuation that gives a line or says that the position has expired, `compute`
  -- returns a report: the constructor of `RiskReport` never refuses what it builds. The report is of
  -- that surface, is stamped neither before it nor before now, and either rejects without a single
  -- position, or carries positions under the policy's own decision, which then is not a rejection.
  pub compute-IsHonest :
      (k : Wiring F) (market_id : String) (now : Instant) (v : SurfaceView F)
      (log : List (Measurement F))
      → IsReportable v
      → now.aware ≡ true
      → All (Values k.value_of v) k.book
      → let decision = judge_age k.policy (f.seconds (elapsed now v.ts_snapshot)) in
        (r : RiskReport F) × ((compute k market_id now (some v) log).0 ≡ ok r)
        × IsHonest decision v now r
  unfolding compute after_evaluation
  compute-IsHonest k market_id now v log h a valuable =
      rw (evaluate_aware k.policy v.ts_snapshot now h.dated a)
        (decided-Reports k market_id v (f.seconds (elapsed now v.ts_snapshot)) now _ _ valuable h a)
