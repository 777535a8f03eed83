-- ===== src/Service/Gravitas/Persisting.antt =====
-- depl/monolith/service/gravitas/gravitas.go: persistScores stores the value of every vertex.
use etherscan.Base.{
  ◌≡◌, refl, ◌∙◌, true, false, Option, none, some, List, [], ◌∷◌, map, arith, All, ◌==◌, ==_iff,
  ==_refl, Bool-cases, inl, inr,
}
use etherscan.Base.Text.{Text, text_eq}
use etherscan.Base.Map.{Map, keys, values, lookup, has_key}
use etherscan.Base.Member.{member, Distinct}
use etherscan.ScoreStore.Types.{Score}
use etherscan.ScoreStore.Memory.{InMemoryScoreStore}
use etherscan.ScoreStore.Memory.Interface.{memory_api}
use etherscan.ScoreStore.Memory.Scores.{score_at, last_score, AllKnown, upsert_scores_lem}
use etherscan.Gravitas.Float.{BigFloat}
use etherscan.Gravitas.Compute.{ScoreVertex}
use etherscan.Service.Gravitas.{balance_eth, score_of, persist_scores}

module _ (fl : BigFloat) where
  open fl use {Carrier}

  -- The vertices are filed under their ids.
  abbrev pub AllFiled : Map Text (ScoreVertex Carrier) → Type 0
  AllFiled = All (λ e. e.1.id ≡ e.0)

  -- Vertices with other ids leave the score alone.
  last_score-others :
      (m : Map Text (ScoreVertex Carrier)) (k : Text) (found : Option (Score Carrier))
      → AllFiled m
      → member k (keys m) ≡ false
      → last_score k balance_eth (map (score_of fl) (values m)) found ≡ found
  unfolding keys values member
  last_score-others [] k found filed absent = refl
  last_score-others ((j, v) ∷ m) k found (same, filed) absent =
      ground
        (arith, last_score-others m k found filed, ==_refl balance_eth, ==_iff v.id k, ==_iff j k)

  last_score-values :
      (m : Map Text (ScoreVertex Carrier)) (k : Text) (v : ScoreVertex Carrier)
      (found : Option (Score Carrier))
      → Distinct (keys m)
      → AllFiled m
      → lookup k m ≡ some v
      → last_score k balance_eth (map (score_of fl) (values m)) found ≡ some (score_of fl v)
  unfolding keys values lookup
  last_score-values [] k v found once filed at_k = ground arith
  last_score-values ((j, w) ∷ m) k v found (new, once) (same, filed) at_k =
      elim (Bool-cases (j == k)) [
        | inl here ↦ ground (
          arith,
          last_score-others m k (some (score_of fl w)) filed,
          ==_refl balance_eth,
          ==_iff v.id k,
          ==_iff w.id k,
          ==_iff j k,
        )
        | inr later ↦
            ground (arith, last_score-values m k v found once filed, ==_iff w.id k, ==_iff j k)
      ]

  AllKnown-score_of :
      (vs : List (ScoreVertex Carrier)) (s : InMemoryScoreStore Carrier)
      → has_key balance_eth s.scorers ≡ true
      → AllKnown s (map (score_of fl) vs)
  AllKnown-score_of [] s known = tt
  AllKnown-score_of (v ∷ vs) s known = (known, AllKnown-score_of vs s known)

  -- The scores of the vertices of a map are stored under their keys.
  pub persist_scores_lem :
      (m : Map Text (ScoreVertex Carrier)) (s : InMemoryScoreStore Carrier) (k : Text)
      (v : ScoreVertex Carrier)
      → has_key balance_eth s.scorers ≡ true
      → Distinct (keys m)
      → AllFiled m
      → lookup k m ≡ some v
      → let (err, s') = persist_scores fl memory_api (values m) s in
        (err ≡ none) × (score_at k balance_eth s' ≡ some (score_of fl v))
  unfolding persist_scores
  persist_scores_lem m s k v known once filed at_k =
      let (fine, stored) =
        upsert_scores_lem (map (score_of fl) (values m)) s k balance_eth
          (AllKnown-score_of (values m) s known) in
      (fine, stored ∙ last_score-values m k v (score_at k balance_eth s) once filed at_k)
