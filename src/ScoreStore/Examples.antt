-- ===== src/ScoreStore/Examples.antt =====
-- scorestore/memory/: runs at concrete inputs.
use etherscan.Base.{ℕ, ◌≡◌, refl, none, some, List, [], ◌∷◌}
use etherscan.Base.{All}
use etherscan.Base.Map.{keys}
use etherscan.Base.Member.{member, Distinct}
use etherscan.ScoreStore.Types.{Query}
use etherscan.ScoreStore.Memory.{search}
use etherscan.ScoreStore.Memory.Searching.{IsAmong, search_lem}
use etherscan.Base.Text.{Text, text_eq, text_eqb, codes}
use etherscan.Base.Map.{lookup, has_key, insert}
use etherscan.ScoreStore.Types.{Score}
use etherscan.ScoreStore.Memory.{
  InMemoryScoreStore, upsert_scores, upsert_scorer, new_in_memory_score_store,
}
use etherscan.ScoreStore.Memory.Scores.{score_at, upsert_scores_lem}

abbrev gravitas : Text
gravitas = codes "gravitas"

abbrev gravitas_only : InMemoryScoreStore ℕ
gravitas_only = record {
  scorers = (gravitas, record { name = gravitas }) ∷ [];
  wallet_scores = [];
  scorer_wallets = [];
}

abbrev score : ℕ → ℕ → Score ℕ
score wallet value = record { wallet = wallet ∷ []; scorer = gravitas; value = value }

abbrev three_scores : List (Score ℕ)
three_scores = score 1 10 ∷ score 2 20 ∷ score 1 30 ∷ []

upsert_scores_example :
    ((upsert_scores three_scores gravitas_only).0 ≡ none)
    × (score_at (1 ∷ []) gravitas (upsert_scores three_scores gravitas_only).1 ≡ some (score 1 30))
unfolding has_key lookup text_eqb
upsert_scores_example =
    upsert_scores_lem three_scores gravitas_only (1 ∷ []) gravitas (refl, (refl, (refl, tt)))

-- A new scorer has three wallets with an empty address.
upsert_scorer_test :
    lookup gravitas
      (upsert_scorer
        (record { name = gravitas })
        (new_in_memory_score_store {F = ℕ})).1.scorer_wallets
    ≡ some ([] ∷ [] ∷ [] ∷ [])
unfolding upsert_scorer new_in_memory_score_store has_key lookup insert text_eqb
upsert_scorer_test = refl

abbrev query : Query
query = record { query_type = 0; expression = gravitas; offset = 0 }

abbrev two_scores : InMemoryScoreStore ℕ
two_scores = record gravitas_only {
  wallet_scores =
      (1 ∷ [], (gravitas, score 1 10) ∷ []) ∷ (2 ∷ [], (gravitas, score 2 20) ∷ []) ∷ [];
}

two_scores-Distinct : Distinct (keys two_scores.wallet_scores)
unfolding keys member text_eqb
two_scores-Distinct = (refl, (refl, tt))

search_lem_example :
    ((search query two_scores).1 ≡ none)
    × ((wallet : Text) (s : Score ℕ)
        → score_at wallet gravitas two_scores ≡ some s
        → IsAmong s (search query two_scores).0)
    × All (λ t. (w : Text) × (score_at w gravitas two_scores ≡ some t)) (search query two_scores).0
search_lem_example = search_lem query two_scores refl two_scores-Distinct
