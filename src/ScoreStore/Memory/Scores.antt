-- ===== src/ScoreStore/Memory/Scores.antt =====
-- scorestore/memory/memory.go: what UpsertScores leaves.
use etherscan.Base.{
  ◌≡◌, refl, true, ◌&&◌, Option, none, some, List, [], ◌∷◌, if◌then◌else◌, arith, ◌==◌, ==_iff, All,
}
use etherscan.Base.Text.{Text, text_eq}
use etherscan.Base.Map.{lookup, insert, has_key, lookup-insert}
use etherscan.ScoreStore.Types.{Score}
use etherscan.ScoreStore.Memory.{
  InMemoryScoreStore, upsert_score, upsert_scores, add_wallet, scores_of,
}

module _ {F : Type 0} where
  -- The score that the store has of a scorer for a wallet.
  abbrev pub score_at : Text → Text → InMemoryScoreStore F → Option (Score F)
  score_at wallet scorer ss = lookup scorer (scores_of wallet ss)

  -- The last score of the list for a wallet by a scorer, or else the given one.
  abbrev pub last_score : Text → Text → List (Score F) → Option (Score F) → Option (Score F)
  last_score wallet scorer [] found = found
  last_score wallet scorer (s ∷ ss) found =
      last_score wallet scorer ss
        (if s.wallet == wallet && s.scorer == scorer then some s else found)

  abbrev pub AllKnown : InMemoryScoreStore F → List (Score F) → Type 0
  AllKnown ss = All (λ s. has_key s.scorer ss.scorers ≡ true)

  upsert_score_lem :
      (s : Score F) (ss : InMemoryScoreStore F) (wallet scorer : Text)
      → has_key s.scorer ss.scorers ≡ true
      → ((upsert_score s ss).0 ≡ none)
        × (score_at wallet scorer (upsert_score s ss).1 ≡ (
            if s.wallet == wallet && s.scorer == scorer then some s else score_at wallet scorer ss))
        × ((upsert_score s ss).1.scorers ≡ ss.scorers)
  unfolding upsert_score add_wallet
  upsert_score_lem s ss wallet scorer known = ground (
    arith,
    ==_iff s.wallet wallet,
    lookup-insert s.wallet wallet (insert s.scorer s (scores_of s.wallet ss)) ss.wallet_scores,
    lookup-insert s.scorer scorer s (scores_of s.wallet ss),
  )

  AllKnown-same :
      (ss ss' : InMemoryScoreStore F) (scores : List (Score F))
      → ss'.scorers ≡ ss.scorers
      → AllKnown ss scores
      → AllKnown ss' scores
  AllKnown-same ss ss' [] e all = tt
  AllKnown-same ss ss' (s ∷ scores) e all = (rw e all.0, AllKnown-same ss ss' scores e all.1)

  upsert_scores_cons :
      (s : Score F) (scores : List (Score F)) (ss : InMemoryScoreStore F)
      → (upsert_score s ss).0 ≡ none
      → upsert_scores (s ∷ scores) ss ≡ upsert_scores scores (upsert_score s ss).1
  unfolding upsert_scores
  upsert_scores_cons s scores ss fine = ground arith

  -- With known scorers UpsertScores succeeds, and then the store has, for every wallet and scorer,
  -- the last of the given scores, or the old one if none was given.
  pub upsert_scores_lem :
      (scores : List (Score F)) (ss : InMemoryScoreStore F) (wallet scorer : Text)
      → AllKnown ss scores
      → ((upsert_scores scores ss).0 ≡ none)
        × (score_at wallet scorer (upsert_scores scores ss).1
            ≡ last_score wallet scorer scores (score_at wallet scorer ss))
  unfolding upsert_scores
  upsert_scores_lem [] ss wallet scorer all = (refl, refl)
  upsert_scores_lem (s ∷ scores) ss wallet scorer (known, all) =
      let ss1 = (upsert_score s ss).1 in
      let (fine, at_it, same) = upsert_score_lem s ss wallet scorer known in
      let (ok, rest) =
        upsert_scores_lem scores ss1 wallet scorer (AllKnown-same ss ss1 scores same all) in
      rw (upsert_scores_cons s scores ss fine) (ok, rw at_it at rest)
