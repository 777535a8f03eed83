-- ===== src/ScoreStore/Memory.antt =====
-- scorestore/memory/memory.go: the in-memory score store. Each method holds the lock for its whole
-- body; a map of pointers to private copies is a map of values.
pub mod Interface
pub mod Iterators
pub mod Scores
pub mod Searching
use etherscan.Base.{
  ℕ, Bool, true, false, not, Option, none, some, List, [], ◌∷◌, ◌++◌, nat_eqb, if◌then◌else◌,
}
use etherscan.Base.Text.{Text, text_eq}
use etherscan.Base.Map.{Map, lookup, insert, has_key, values}
use etherscan.Base.Member.{member}
use etherscan.ScoreStore.Types.{
  Score, Scorer, Query, query_type_scorer, Error, unknown_scorer, unknown_query_type,
}

-- `wallet_scores` has for a wallet its scores by scorer, `scorer_wallets` for a scorer its wallets.
pub record InMemoryScoreStore (F : Type 0) : Type 0 where
  pub scorers : Map Text Scorer
  pub wallet_scores : Map Text (Map Text (Score F))
  pub scorer_wallets : Map Text (List Text)

module _ {F : Type 0} where
  unfoldable pub new_in_memory_score_store : InMemoryScoreStore F
  new_in_memory_score_store = record { scorers = []; wallet_scores = []; scorer_wallets = [] }

  -- A missing key of a map of slices or maps reads as an empty one.
  abbrev pub wallets_of : Text → InMemoryScoreStore F → List Text
  wallets_of scorer ss = elim (lookup scorer ss.scorer_wallets) [ none ↦ [] | some ws ↦ ws ]

  abbrev pub scores_of : Text → InMemoryScoreStore F → Map Text (Score F)
  scores_of wallet ss = elim (lookup wallet ss.wallet_scores) [ none ↦ [] | some m ↦ m ]

  unfoldable pub add_wallet : Text → Text → InMemoryScoreStore F → InMemoryScoreStore F
  add_wallet scorer wallet ss = if member wallet (wallets_of scorer ss) then ss else record ss {
    scorer_wallets = insert scorer (wallets_of scorer ss ++ wallet ∷ []) ss.scorer_wallets;
  }

  -- One round of the loop of UpsertScores.
  unfoldable pub upsert_score : Score F → InMemoryScoreStore F → Option Error × InMemoryScoreStore F
  unfolding add_wallet
  upsert_score score ss =
      if not (has_key score.scorer ss.scorers) then (some (unknown_scorer score.scorer), ss) else (
        none,
        record (add_wallet score.scorer score.wallet ss) {
          wallet_scores =
              insert score.wallet (insert score.scorer score (scores_of score.wallet ss))
                ss.wallet_scores;
        },
      )

  -- The first error ends the loop; the scores before it stay.
  unfoldable pub upsert_scores :
      List (Score F) → InMemoryScoreStore F → Option Error × InMemoryScoreStore F
  unfolding upsert_score
  upsert_scores [] ss = (none, ss)
  upsert_scores (score ∷ scores) ss =
      let (err, ss') = upsert_score score ss in
      elim err [ none ↦ upsert_scores scores ss' | some e ↦ (some e, ss') ]

  -- `make([]string, 3)` holds three empty strings.
  unfoldable pub upsert_scorer : Scorer → InMemoryScoreStore F → Option Error × InMemoryScoreStore F
  upsert_scorer scorer ss = if has_key scorer.name ss.scorers then (none, ss) else (
    none,
    record ss {
      scorers = insert scorer.name scorer ss.scorers;
      scorer_wallets = insert scorer.name ([] ∷ [] ∷ [] ∷ []) ss.scorer_wallets;
    },
  )

  -- The list that the iterator goes through.
  unfoldable pub scorers : InMemoryScoreStore F → List Scorer
  scorers ss = values ss.scorers

  -- The loop of Search over the wallets.
  unfoldable pub scores_by : Text → Map Text (Map Text (Score F)) → List (Score F)
  scores_by scorer [] = []
  scores_by scorer ((wallet, m) ∷ ws) =
      let rest = scores_by scorer ws in
      elim (lookup scorer m) [ none ↦ rest | some score ↦ score ∷ rest ]

  unfoldable pub search : Query → InMemoryScoreStore F → List (Score F) × Option Error
  unfolding scores_by
  search query ss =
      if nat_eqb query.query_type query_type_scorer
      then (scores_by query.expression ss.wallet_scores, none)
      else ([], some (unknown_query_type query.query_type))
