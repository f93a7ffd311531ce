-- ===== src/Rank/Rebalance.antt =====
-- `rebalance_ranks`: ascending ranks, and how long they get.
use ampla.Shared.{
  ℕ, zero, suc, ◌+◌, ◌-◌, ◌/◌, ◌<◌, ◌≡◌, refl, Option, none, some, List, [], ◌∷◌, arith, length,
}
use ampla.Rank.{
  Rank, rank_len_max, rank_loop, rank_between, ranks_after, rebalance_ranks, max_rank_len,
}
use ampla.Rank.Order.{IsRank, IsBound, Above}
use ampla.Rank.Between.{Between, Ordered, rank_between_lem}

-- Every rank of the list is above the one before it, and the first is above `prev`.
abbrev pub Ascending : Option Rank → List Rank → Type 0
Ascending prev [] = Unit
Ascending prev (r ∷ rs) = IsRank r × Above prev r × Ascending (some r) rs

abbrev pub Spread : ℕ → Option Rank → Option (List Rank) → Type 0
Spread count prev none = ⊥
Spread count prev (some rs) = (length rs ≡ count) × Ascending prev rs

Ordered-none : (p : Option Rank) → Ordered p none
Ordered-none none = tt
Ordered-none (some r) = tt

abbrev followed : Rank → Option (List Rank) → Option (List Rank)
followed nxt none = none
followed nxt (some more) = some (nxt ∷ more)

ranks_after-suc :
    (count : ℕ) (prev : Option Rank) (nxt : Rank)
    → rank_between prev none ≡ some nxt
    → ranks_after (suc count) prev ≡ followed nxt (ranks_after count (some nxt))
unfolding ranks_after
ranks_after-suc count prev nxt e = ground arith

Spread-cons :
    (count : ℕ) (prev : Option Rank) (nxt : Rank) (more : Option (List Rank))
    → IsRank nxt
    → Above prev nxt
    → Spread count (some nxt) more
    → Spread (suc count) prev (followed nxt more)
Spread-cons count prev nxt none g a s = elim s [ ]
Spread-cons count prev nxt (some rs) g a s = (ap_suc s.0, (g, a, s.1))
  where
    ap_suc : length rs ≡ count → suc (length rs) ≡ suc count
    ap_suc e = omega arith

Between-some :
    (lo hi r : Option Rank)
    → Between lo hi r
    → (nxt : Rank) × (r ≡ some nxt) × IsRank nxt × Above lo nxt
Between-some lo hi none b = elim b [ ]
Between-some lo hi (some nxt) b = (nxt, refl, b.0, b.1)

ranks_after-Spread :
    (count : ℕ) (prev : Option Rank) → IsBound prev → Spread count prev (ranks_after count prev)
unfolding ranks_after
ranks_after-Spread zero prev b = (refl, tt)
ranks_after-Spread (suc count) prev b =
    let (nxt, e, good, above) =
      Between-some prev none (rank_between prev none)
        (rank_between_lem prev none b tt (Ordered-none prev)) in
    rw (ranks_after-suc count prev nxt e)
      (Spread-cons count prev nxt _ good above (ranks_after-Spread count (some nxt) good))

-- `rebalance_ranks(count)` returns, for every count, exactly `count` ranks, each a well-formed rank
-- strictly above the one before it.
pub rebalance_ranks_lem : (count : ℕ) → Spread count none (rebalance_ranks count)
unfolding rebalance_ranks
rebalance_ranks_lem count = ranks_after-Spread count none tt

-- The ranks that repeated appending makes: five digits towards the end of the alphabet, `z`, and
-- the same again behind one more `z`.
climb : ℕ → Rank
climb zero = 31 ∷ []
climb (suc zero) = 46 ∷ []
climb (suc (suc zero)) = 54 ∷ []
climb (suc (suc (suc zero))) = 58 ∷ []
climb (suc (suc (suc (suc zero)))) = 60 ∷ []
climb (suc (suc (suc (suc (suc zero))))) = 61 ∷ []
climb (suc (suc (suc (suc (suc (suc i)))))) = 61 ∷ climb i

length-climb : (i : ℕ) → length (climb i) ≡ i / 6 + 1
unfolding climb
length-climb zero = refl
length-climb (suc zero) = refl
length-climb (suc (suc zero)) = refl
length-climb (suc (suc (suc zero))) = refl
length-climb (suc (suc (suc (suc zero)))) = refl
length-climb (suc (suc (suc (suc (suc zero))))) = refl
length-climb (suc (suc (suc (suc (suc (suc i)))))) = omega (arith, length-climb i)

rank_loop-climb :
    (fuel i : ℕ) → length (climb i) < fuel → rank_loop fuel (climb i) none ≡ some (climb (suc i))
unfolding rank_loop climb
rank_loop-climb zero i h = elim h [ ]
rank_loop-climb (suc f) zero h = refl
rank_loop-climb (suc f) (suc zero) h = refl
rank_loop-climb (suc f) (suc (suc zero)) h = refl
rank_loop-climb (suc f) (suc (suc (suc zero))) h = refl
rank_loop-climb (suc f) (suc (suc (suc (suc zero)))) h = refl
rank_loop-climb (suc zero) (suc (suc (suc (suc (suc zero))))) h = absurd (omega arith)
rank_loop-climb (suc (suc f)) (suc (suc (suc (suc (suc zero))))) h = refl
rank_loop-climb (suc f) (suc (suc (suc (suc (suc (suc i)))))) h =
    rw (rank_loop-climb f i (omega arith))

rank_between-climb : (i : ℕ) → rank_between (some (climb i)) none ≡ some (climb (suc i))
unfolding rank_between
rank_between-climb i = rank_loop-climb _ i (omega arith)

-- The length of the longest of `count` ranks after `climb i`.
abbrev longest : ℕ → ℕ → ℕ
longest i zero = 0
longest i (suc count) = (i + suc count) / 6 + 1

abbrev Longest : ℕ → Option (List Rank) → Type 0
Longest n none = ⊥
Longest n (some rs) = max_rank_len rs ≡ n

Longest-cons :
    (i count : ℕ) (more : Option (List Rank))
    → Longest (longest (suc i) count) more
    → Longest (longest i (suc count)) (followed (climb (suc i)) more)
unfolding max_rank_len
Longest-cons i count none h = elim h [ ]
Longest-cons i zero (some rs) h = omega (arith, length-climb (suc i))
Longest-cons i (suc count) (some rs) h = omega (arith, length-climb (suc i))

ranks_after-Longest : (count i : ℕ) → Longest (longest i count) (ranks_after count (some (climb i)))
unfolding ranks_after max_rank_len
ranks_after-Longest zero i = refl
ranks_after-Longest (suc count) i =
    rw (ranks_after-suc count (some (climb i)) (climb (suc i)) (rank_between-climb i))
      (Longest-cons i count _ (ranks_after-Longest count (suc i)))

Longest-first :
    (count : ℕ) (more : Option (List Rank))
    → Longest (longest 0 count) more
    → Longest (count / 6 + 1) (followed (climb 0) more)
unfolding max_rank_len climb
Longest-first count none h = elim h [ ]
Longest-first zero (some rs) h = omega arith
Longest-first (suc count) (some rs) h = omega arith

rebalance-Longest : (count : ℕ) → Longest (count / 6 + 1) (rebalance_ranks (suc count))
unfolding rebalance_ranks
rebalance-Longest count =
    rw (ranks_after-suc count none (climb 0) first_rank)
      (Longest-first count _ (ranks_after-Longest count 0))
  where
    first_rank : rank_between none none ≡ some (climb 0)
    first_rank = unfold rank_between rank_loop climb in refl

-- The longest rank of a rebalance of `count` cards (`count` above 0) has `(count - 1) / 6 + 1`
-- characters: rebalancing does not spread the ranks evenly.
max_rank_len-rebalance_ranks :
    (count : ℕ) (ranks : List Rank)
    → 0 < count
    → rebalance_ranks count ≡ some ranks
    → max_rank_len ranks ≡ (count - 1) / 6 + 1
max_rank_len-rebalance_ranks zero ranks pos e = elim pos [ ]
max_rank_len-rebalance_ranks (suc count) ranks pos e =
    let exact : max_rank_len ranks ≡ count / 6 + 1 = rw e at (rebalance-Longest count) in
    omega arith

-- A rebalance of more than 288 cards leaves a rank that is again over the limit that triggers a
-- rebalance.
rebalance_ranks-too_long :
    (count : ℕ) (ranks : List Rank)
    → 288 < count
    → rebalance_ranks count ≡ some ranks
    → rank_len_max < max_rank_len ranks
rebalance_ranks-too_long count ranks many e =
    omega (arith, max_rank_len-rebalance_ranks count ranks (omega arith) e)
