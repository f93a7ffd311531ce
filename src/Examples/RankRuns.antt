-- ===== src/Examples/RankRuns.antt =====
-- The theorems on ranks at concrete ranks.
use ampla.Shared.{ℕ, ◌≡◌, refl, inl, Option, none, some, List, [], ◌∷◌, arith}
use ampla.Rank.{Rank, rank_loop, rank_between, ranks_after, rebalance_ranks}
use ampla.Rank.Between.{Between, rank_between_lem}
use ampla.Rank.Rebalance.{Spread}

rank_between_lem_example :
    Between (some (9 ∷ [])) (some (10 ∷ [])) (rank_between (some (9 ∷ [])) (some (10 ∷ [])))
rank_between_lem_example =
    rank_between_lem (some (9 ∷ [])) (some (10 ∷ [])) (omega arith) (omega arith)
      (inl (omega arith))

between_neighbours : rank_between (some (9 ∷ [])) (some (10 ∷ [])) ≡ some (9 ∷ 31 ∷ [])
unfolding rank_between rank_loop
between_neighbours = refl

abbrev seven : List Rank
seven = (31 ∷ []) ∷ (46 ∷ []) ∷ (54 ∷ []) ∷ (58 ∷ []) ∷ (60 ∷ []) ∷ (61 ∷ []) ∷ (61 ∷ 31 ∷ []) ∷ []

seven_ranks : rebalance_ranks 7 ≡ some seven
unfolding rebalance_ranks ranks_after rank_between rank_loop
seven_ranks = refl

abbrev ranks_of : Option (List Rank) → List Rank
ranks_of none = []
ranks_of (some ranks) = ranks

found :
    (count : ℕ) (ranks : Option (List Rank))
    → Spread count none ranks
    → ranks ≡ some (ranks_of ranks)
found count none s = elim s [ ]
found count (some ranks) s = refl
