-- ===== src/Rank/Order.antt =====
-- The order of rank strings and their shape (services/kanban_rank.py).
use ampla.Shared.{
  ℕ, ◌<◌, ◌≡◌, refl, ◌⊎◌, inl, inr, Bool, true, false, Option, none, some, [], ◌∷◌, arith,
  if◌then◌else◌, ltb, nat_eq, Bool-cases, All, nat_eq_iff, ltb→lt,
}
use ampla.Rank.{Rank, base}

-- Python's `<` on strings.
unfoldable pub rank_lt : Rank → Rank → Bool
rank_lt xs [] = false
rank_lt [] (y ∷ ys) = true
rank_lt (x ∷ xs) (y ∷ ys) = if nat_eq x y then rank_lt xs ys else ltb x y

-- The order that it decides.
abbrev pub RankLt : Rank → Rank → Type 0
RankLt xs [] = ⊥
RankLt [] (y ∷ ys) = Unit
RankLt (x ∷ xs) (y ∷ ys) = (x < y) ⊎ ((x ≡ y) × RankLt xs ys)

pub rank_lt→RankLt : (r s : Rank) → rank_lt r s ≡ true → RankLt r s
unfolding rank_lt
rank_lt→RankLt [] [] h = cc
rank_lt→RankLt (x ∷ xs) [] h = cc
rank_lt→RankLt [] (y ∷ ys) h = tt
rank_lt→RankLt (x ∷ xs) (y ∷ ys) h = elim (Bool-cases (nat_eq x y)) [
  | inl same ↦ inr ((nat_eq_iff x y).0 same, rank_lt→RankLt xs ys (rw same at h))
  | inr other ↦ inl (ltb→lt x y (rw other at h))
]

pub RankLt→rank_lt : (r s : Rank) → RankLt r s → rank_lt r s ≡ true
unfolding rank_lt
RankLt→rank_lt [] [] h = elim h [ ]
RankLt→rank_lt (x ∷ xs) [] h = elim h [ ]
RankLt→rank_lt [] (y ∷ ys) h = refl
RankLt→rank_lt (x ∷ xs) (y ∷ ys) (inl less) = ground arith
RankLt→rank_lt (x ∷ xs) (y ∷ ys) (inr (same, less)) = ground (arith, RankLt→rank_lt xs ys less)

pub RankLt-irrefl : (r : Rank) → ¬ RankLt r r
RankLt-irrefl [] h = h
RankLt-irrefl (x ∷ xs) (inl less) = omega arith
RankLt-irrefl (x ∷ xs) (inr (_, less)) = RankLt-irrefl xs less

pub RankLt-trans : (r s t : Rank) → RankLt r s → RankLt s t → RankLt r t
RankLt-trans r [] t h k = elim h [ ]
RankLt-trans r (y ∷ ys) [] h k = elim k [ ]
RankLt-trans [] (y ∷ ys) (z ∷ zs) h k = tt
RankLt-trans (x ∷ xs) (y ∷ ys) (z ∷ zs) (inl h) (inl k) = inl (omega arith)
RankLt-trans (x ∷ xs) (y ∷ ys) (z ∷ zs) (inl h) (inr (e, _)) = inl (omega arith)
RankLt-trans (x ∷ xs) (y ∷ ys) (z ∷ zs) (inr (e, _)) (inl k) = inl (omega arith)
RankLt-trans (x ∷ xs) (y ∷ ys) (z ∷ zs) (inr (e, h)) (inr (f, k)) =
    inr (omega arith, RankLt-trans xs ys zs h k)

-- Characters of the alphabet only.
abbrev pub Digits : Rank → Type 0
Digits = All (λ d. d < base)

-- A rank as `rank_between` makes it: of the alphabet, not empty, and not ending in the lowest digit.
abbrev pub IsRank : Rank → Type 0
IsRank [] = ⊥
IsRank (x ∷ []) = (0 < x) × (x < base)
IsRank (x ∷ y ∷ ys) = (x < base) × IsRank (y ∷ ys)

pub IsRank-cons : (x : ℕ) (r : Rank) → x < base → IsRank r → IsRank (x ∷ r)
IsRank-cons x [] h k = elim k [ ]
IsRank-cons x (y ∷ ys) h k = (h, k)

pub Digits-of_IsRank : (r : Rank) → IsRank r → Digits r
Digits-of_IsRank [] h = elim h [ ]
Digits-of_IsRank (x ∷ []) h = (h.1, tt)
Digits-of_IsRank (x ∷ y ∷ ys) h = (h.0, Digits-of_IsRank (y ∷ ys) h.1)

-- A bound that a caller may give: no rank at all, or a rank.
abbrev pub IsBound : Option Rank → Type 0
IsBound none = Unit
IsBound (some r) = IsRank r

-- `lo < r`, where None stands for no bound.
abbrev pub Above : Option Rank → Rank → Type 0
Above none r = Unit
Above (some lo) r = RankLt lo r

-- `r < hi`, where None stands for no bound.
abbrev pub Below : Rank → Option Rank → Type 0
Below r none = Unit
Below r (some hi) = RankLt r hi
