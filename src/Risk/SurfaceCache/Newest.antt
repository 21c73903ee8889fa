-- ===== src/Risk/SurfaceCache/Newest.antt =====
-- `latest` picks the first of the newest surfaces of a market.
use mathlib.Core.List.{append-nil, append_assoc}
use volengine.Base.{
  ◌≡◌, refl, sym, ◌∙◌, ◌⊎◌, inl, inr, true, false, none, some, List, [], ◌∷◌, ◌++◌, arith, All,
  All-append, All-map, Bool-cases, String,
}
use volengine.Base.Instants.{before}
use volengine.Base.Dict.{Dict}
use volengine.Risk.SurfaceView.{SurfaceView}
use volengine.Risk.SurfaceCache.{Cache, slots, newest_from, newest, latest}

module _ {F : Type 0} where
  -- `held.values()`
  abbrev pub values : Dict String (SurfaceView F) → List (SurfaceView F)
  values [] = []
  values ((p, v) ∷ held) = v ∷ values held

  abbrev pub IsOlder : SurfaceView F → SurfaceView F → Type 0
  IsOlder v w = before w.ts_snapshot v.ts_snapshot ≡ true

  abbrev pub NotNewer : SurfaceView F → SurfaceView F → Type 0
  NotNewer v w = before v.ts_snapshot w.ts_snapshot ≡ false

  -- `v` stands in the list, behind strictly older views only and before none that is newer.
  abbrev pub IsFirstNewest : SurfaceView F → List (SurfaceView F) → Type 0
  IsFirstNewest v views =
      (pre : List (SurfaceView F)) × (post : List (SurfaceView F)) × (views ≡ pre ++ v ∷ post)
      × All (IsOlder v) pre
      × All (NotNewer v) post

  newest_from-IsFirstNewest :
      (pre post : List (SurfaceView F)) (best : SurfaceView F) (held : Dict String (SurfaceView F))
      → All (IsOlder best) pre
      → All (NotNewer best) post
      → IsFirstNewest (newest_from best held) (pre ++ best ∷ post ++ values held)
  unfolding newest_from
  newest_from-IsFirstNewest pre post best [] older behind =
      (pre, post, append-nil (pre ++ best ∷ post), older, behind)
  newest_from-IsFirstNewest pre post best ((p, v) ∷ held) older behind =
      elim (Bool-cases (before best.ts_snapshot v.ts_snapshot)) [
        | inl newer ↦
            let seen = pre ++ best ∷ post in
            let past : All (IsOlder v) seen =
              All-append (IsOlder v) pre (best ∷ post)
                (All-map (IsOlder best) (IsOlder v) pre (λ w h. ground arith) older)
                (newer, All-map (NotNewer best) (IsOlder v) post (λ w h. ground arith) behind) in
            let (a, b, e, o, n) = newest_from-IsFirstNewest seen [] v held past tt in
            rw newer (a, b, sym (append_assoc seen (v ∷ []) (values held)) ∙ e, o, n)
        | inr other ↦
            let more : All (NotNewer best) (post ++ v ∷ []) =
              All-append (NotNewer best) post (v ∷ []) behind (other, tt) in
            let (a, b, e, o, n) =
              newest_from-IsFirstNewest pre (post ++ v ∷ []) best held older more in
            let regroup : pre ++ best ∷ post ++ v ∷ values held
                ≡ pre ++ best ∷ (post ++ v ∷ []) ++ values held =
              simp append_assoc in
            rw other (a, b, regroup ∙ e, o, n)
      ]

  newest-IsFirstNewest :
      (held : Dict String (SurfaceView F))
      → ((newest held ≡ none) × (values held ≡ []))
        ⊎ ((v : SurfaceView F) × (newest held ≡ some v) × IsFirstNewest v (values held))
  unfolding newest
  newest-IsFirstNewest [] = inl (refl, refl)
  newest-IsFirstNewest ((p, w) ∷ held) =
      inr (newest_from w held, refl, newest_from-IsFirstNewest [] [] w held tt tt)

  -- `latest` answers `None` for a market with no surface. For any other market it answers with a view
  -- of the newest snapshot instant that is held, and with the first in insertion order among equals.
  pub latest-IsFirstNewest :
      (c : Cache F) (market : String)
      → ((latest c market ≡ none) × (values (slots c market) ≡ []))
        ⊎ ((v : SurfaceView F) × (latest c market ≡ some v)
            × IsFirstNewest v (values (slots c market)))
  unfolding latest
  latest-IsFirstNewest c market = newest-IsFirstNewest (slots c market)
