-- ===== src/ScoreStore/Memory/Searching.antt =====
-- scorestore/memory/memory.go: what Search returns.
use etherscan.Base.{
  ◌≡◌, refl, false, Option, none, some, List, [], ◌∷◌, arith, ==_iff, ==_refl, All, Option-cases,
  inl, inr, ◌⊎◌,
}
use etherscan.Base.Text.{Text, text_eq}
use etherscan.Base.Map.{Map, keys, lookup, has_key}
use etherscan.Base.Member.{member, Distinct, member-keys}
use etherscan.ScoreStore.Types.{Score, Query, query_type_scorer}
use etherscan.ScoreStore.Memory.{InMemoryScoreStore, search, scores_by}
use etherscan.ScoreStore.Memory.Scores.{score_at}

module _ {F : Type 0} where
  -- The score stands in the list.
  abbrev pub IsAmong : Score F → List (Score F) → Type 0
  IsAmong s [] = ⊥
  IsAmong s (x ∷ xs) = (x ≡ s) ⊎ IsAmong s xs

  -- The score that a map of scores by wallet and scorer has.
  abbrev entry_at : Text → Text → Map Text (Map Text (Score F)) → Option (Score F)
  entry_at wallet scorer m = lookup scorer (elim (lookup wallet m) [ none ↦ [] | some es ↦ es ])

  scores_by_finds :
      (wallet scorer : Text) (s : Score F) (m : Map Text (Map Text (Score F)))
      → entry_at wallet scorer m ≡ some s
      → IsAmong s (scores_by scorer m)
  unfolding scores_by lookup
  scores_by_finds wallet scorer s [] h = ground arith
  scores_by_finds wallet scorer s ((w, es) ∷ m) h =
      ground (arith, scores_by_finds wallet scorer s m)

  entry_at_later :
      (wallet scorer w : Text) (s : Score F) (es : Map Text (Score F))
      (m : Map Text (Map Text (Score F)))
      → member w (keys m) ≡ false
      → entry_at wallet scorer m ≡ some s
      → entry_at wallet scorer ((w, es) ∷ m) ≡ some s
  unfolding lookup has_key
  entry_at_later wallet scorer w s es m h found =
      ground (arith, member-keys w m, ==_iff w wallet, Option-cases (lookup wallet m))

  -- The score is the one that the map has for some wallet.
  abbrev IsEntry : Text → Map Text (Map Text (Score F)) → Score F → Type 0
  IsEntry scorer m s = (wallet : Text) × (entry_at wallet scorer m ≡ some s)

  All-IsEntry :
      (scorer w : Text) (es : Map Text (Score F)) (m : Map Text (Map Text (Score F)))
      (xs : List (Score F))
      → member w (keys m) ≡ false
      → All (IsEntry scorer m) xs
      → All (IsEntry scorer ((w, es) ∷ m)) xs
  All-IsEntry scorer w es m [] h all = tt
  All-IsEntry scorer w es m (x ∷ xs) h ((wallet, found), all) =
      ((wallet, entry_at_later wallet scorer w x es m h found), All-IsEntry scorer w es m xs h all)

  module _ (scorer w : Text) (es : Map Text (Score F)) (m : Map Text (Map Text (Score F))) where
    scores_by-none : lookup scorer es ≡ none → scores_by scorer ((w, es) ∷ m) ≡ scores_by scorer m
    unfolding scores_by
    scores_by-none h = ground arith

    scores_by-some :
        (s : Score F)
        → lookup scorer es ≡ some s
        → scores_by scorer ((w, es) ∷ m) ≡ s ∷ scores_by scorer m
    unfolding scores_by
    scores_by-some s h = ground arith

    entry_at_here :
        (s : Score F) → lookup scorer es ≡ some s → entry_at w scorer ((w, es) ∷ m) ≡ some s
    unfolding lookup
    entry_at_here s h = ground (arith, ==_refl w)

  scores_by-IsEntry :
      (scorer : Text) (m : Map Text (Map Text (Score F)))
      → Distinct (keys m)
      → All (IsEntry scorer m) (scores_by scorer m)
  unfolding scores_by keys lookup
  scores_by-IsEntry scorer [] d = tt
  scores_by-IsEntry scorer ((w, es) ∷ m) d =
      let rest =
        All-IsEntry scorer w es m (scores_by scorer m) d.0 (scores_by-IsEntry scorer m d.1) in
      elim (Option-cases (lookup scorer es)) [
        | inl none_here ↦ rw (scores_by-none scorer w es m none_here) rest
        | inr (s, here) ↦
            rw (scores_by-some scorer w es m s here) ((w, entry_at_here scorer w es m s here), rest)
      ]

  search_finds :
      (query : Query) (wallet : Text) (s : Score F) (ss : InMemoryScoreStore F)
      → query.query_type ≡ query_type_scorer
      → score_at wallet query.expression ss ≡ some s
      → IsAmong s (search query ss).0
  unfolding search
  search_finds query wallet s ss h found =
      rw h (scores_by_finds wallet query.expression s ss.wallet_scores found)

  search_succeeds :
      (query : Query) (ss : InMemoryScoreStore F)
      → query.query_type ≡ query_type_scorer
      → (search query ss).1 ≡ none
  unfolding search
  search_succeeds query ss h = rw h refl

  search_returns :
      (query : Query) (ss : InMemoryScoreStore F)
      → query.query_type ≡ query_type_scorer
      → Distinct (keys ss.wallet_scores)
      → All
          (λ s. (wallet : Text) × (score_at wallet query.expression ss ≡ some s))
          (search query ss).0
  unfolding search
  search_returns query ss h d = rw h (scores_by-IsEntry query.expression ss.wallet_scores d)

  -- If the map of the store has each wallet once, then Search by scorer succeeds, also if there is no
  -- score of the scorer; it finds every score that the store has of the scorer, and all that it returns
  -- are such scores.
  pub search_lem :
      (query : Query) (ss : InMemoryScoreStore F)
      → query.query_type ≡ query_type_scorer
      → Distinct (keys ss.wallet_scores)
      → ((search query ss).1 ≡ none)
        × ((wallet : Text) (s : Score F)
            → score_at wallet query.expression ss ≡ some s
            → IsAmong s (search query ss).0)
        × All (λ t. (w : Text) × (score_at w query.expression ss ≡ some t)) (search query ss).0
  search_lem query ss h once = (
    search_succeeds query ss h,
    λ wallet s found. search_finds query wallet s ss h found,
    search_returns query ss h once,
  )
