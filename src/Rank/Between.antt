-- ===== src/Rank/Between.antt =====
-- `rank_between` returns a rank strictly between its bounds.
use ampla.Shared.{
  ℕ, zero, suc, ◌+◌, ◌/◌, ◌<◌, ◌≡◌, refl, inl, inr, true, false, Option, none, some, [], ◌∷◌, arith,
  nat_eq, Bool-cases, length,
}
use ampla.Rank.{Rank, base, rank_loop, rank_between, digit, rest}
use ampla.Rank.Order.{RankLt, Digits, IsRank, IsRank-cons, Digits-of_IsRank, IsBound, Above, Below}

-- What the loop gives for a lower bound and an open upper end.
abbrev Found : ℕ → Rank → Option Rank → Type 0
Found fuel lo hi =
    (r : Rank) × (rank_loop fuel lo hi ≡ some r) × IsRank r × RankLt lo r × Below r hi

Found-above : (fuel : ℕ) (lo : Rank) → Digits lo → length lo < fuel → Found fuel lo none
unfolding rank_loop
Found-above zero lo d h = elim h [ ]
Found-above (suc fuel) [] d h = (31 ∷ [], refl, omega arith, tt, tt)
Found-above (suc fuel) (x ∷ xs) (dx, d) h =
    let past : nat_eq x base ≡ false = ground arith in
    elim (Bool-cases (nat_eq ((x + base) / 2) x)) [
      | inl stuck ↦
          let (r, found, good, above, _) = Found-above fuel xs d (omega arith) in
          (x ∷ r, rw (past, stuck, found), IsRank-cons x r dx good, inr (refl, above), tt)
      | inr room ↦
          ((x + base) / 2 ∷ [], rw (past, room), (omega arith, omega arith), inl (ground arith), tt)
    ]

-- The digits differ: there is room between them, or the loop descends with no upper bound.
Found-split :
    (fuel x y : ℕ) (lo xs ys : Rank)
    → digit lo ≡ x
    → rest lo ≡ xs
    → ((r : Rank) → RankLt xs r → RankLt lo (x ∷ r))
    → ((z : ℕ) → x < z → RankLt lo (z ∷ []))
    → x < y
    → y < base
    → Digits xs
    → length xs < fuel
    → Found (suc fuel) lo (some (y ∷ ys))
unfolding rank_loop
Found-split fuel x y lo xs ys dl rl under over less top d h =
    let apart : nat_eq x y ≡ false = ground arith in
    elim (Bool-cases (nat_eq ((x + y) / 2) x)) [
      | inl stuck ↦
          let (r, found, good, above, _) = Found-above fuel xs d h in
          (
            x ∷ r,
            rw (dl, rl, apart, stuck, found),
            IsRank-cons x r (omega arith) good,
            under r above,
            inl less,
          )
      | inr room ↦ (
        (x + y) / 2 ∷ [],
        rw (dl, apart, room),
        (ground arith, omega arith),
        over ((x + y) / 2) (ground arith),
        inl (omega arith),
      )
    ]

IsRank-head : (y : ℕ) (ys : Rank) → IsRank (y ∷ ys) → y < base
IsRank-head y [] h = h.1
IsRank-head y (z ∷ zs) h = h.0

-- The digits agree: the loop goes on with what is left of both bounds.
Found-same :
    (fuel x : ℕ) (lo xs ys : Rank)
    → digit lo ≡ x
    → rest lo ≡ xs
    → ((r : Rank) → RankLt xs r → RankLt lo (x ∷ r))
    → x < base
    → Found fuel xs (some ys)
    → Found (suc fuel) lo (some (x ∷ ys))
unfolding rank_loop
Found-same fuel x lo xs ys dl rl under top (r, found, good, above, below) =
    let same : nat_eq x x ≡ true = ground arith in
    (x ∷ r, rw (dl, rl, same, found), IsRank-cons x r top good, under r above, inr (refl, below))

Found-between :
    (fuel : ℕ) (lo hi : Rank)
    → Digits lo
    → IsRank hi
    → RankLt lo hi
    → length lo + length hi < fuel
    → Found fuel lo (some hi)
Found-between zero lo hi d g less h = elim h [ ]
Found-between (suc fuel) lo [] d g less h = elim g [ ]
Found-between (suc fuel) [] (zero ∷ []) d g less h = absurd (omega arith)
Found-between (suc fuel) [] (zero ∷ y ∷ ys) d g less h =
    Found-same fuel 0 [] [] (y ∷ ys) refl refl (λ r k. tt) (omega arith)
      (Found-between fuel [] (y ∷ ys) tt g.1 tt (omega arith))
Found-between (suc fuel) [] (suc y ∷ ys) d g less h =
    Found-split fuel 0 (suc y) [] [] ys refl refl (λ r k. tt) (λ z k. tt) (omega arith)
      (IsRank-head (suc y) ys g) tt (omega arith)
Found-between (suc fuel) (x ∷ xs) (y ∷ ys) d g (inl less) h =
    Found-split fuel x y (x ∷ xs) xs ys refl refl (λ r k. inr (refl, k)) (λ z k. inl k) less
      (IsRank-head y ys g) d.1 (omega arith)
Found-between (suc fuel) (x ∷ xs) (y ∷ []) d g (inr (same, less)) h = elim less [ ]
Found-between (suc fuel) (x ∷ xs) (y ∷ z ∷ zs) d g (inr (same, less)) h = rw (← same) (
    Found-same fuel x (x ∷ xs) xs (z ∷ zs) refl refl (λ r k. inr (refl, k)) d.0
      (Found-between fuel xs (z ∷ zs) d.1 g.1 less (omega arith)))

-- What the caller of `rank_between` may rely on.
abbrev pub Between : Option Rank → Option Rank → Option Rank → Type 0
Between lo hi none = ⊥
Between lo hi (some r) = IsRank r × Above lo r × Below r hi

abbrev pub Ordered : Option Rank → Option Rank → Type 0
Ordered (some lo) (some hi) = RankLt lo hi
Ordered lo hi = Unit

Between-of_Found :
    (lo hi : Option Rank) (fuel : ℕ) (low : Rank) (high : Option Rank)
    → ((r : Rank) → RankLt low r → Above lo r)
    → ((r : Rank) → Below r high → Below r hi)
    → Found fuel low high
    → Between lo hi (rank_loop fuel low high)
Between-of_Found lo hi fuel low high above below (r, found, good, over, under) =
    rw found (good, above r over, below r under)

-- With ranks for bounds, the lower one below the upper one, `rank_between` returns (its loop ends),
-- and the result is a rank strictly between the two bounds that does not end in the lowest digit.
pub rank_between_lem :
    (lo hi : Option Rank)
    → IsBound lo
    → IsBound hi
    → Ordered lo hi
    → Between lo hi (rank_between lo hi)
unfolding rank_between
rank_between_lem none none bl bh o =
    Between-of_Found none none 2 [] none (λ r k. tt) (λ r k. tt) (Found-above 2 [] tt (omega arith))
rank_between_lem (some lo) none bl bh o =
    Between-of_Found (some lo) none _ lo none (λ r k. k) (λ r k. tt)
      (Found-above _ lo (Digits-of_IsRank lo bl) (omega arith))
rank_between_lem none (some []) bl bh o = elim bh [ ]
rank_between_lem (some lo) (some []) bl bh o = elim bh [ ]
rank_between_lem none (some (y ∷ ys)) bl bh o =
    Between-of_Found none (some (y ∷ ys)) _ [] (some (y ∷ ys)) (λ r k. tt) (λ r k. k)
      (Found-between _ [] (y ∷ ys) tt bh tt (omega arith))
rank_between_lem (some lo) (some (y ∷ ys)) bl bh o =
    Between-of_Found (some lo) (some (y ∷ ys)) _ lo (some (y ∷ ys)) (λ r k. k) (λ r k. k)
      (Found-between _ lo (y ∷ ys) (Digits-of_IsRank lo bl) bh o (omega arith))
