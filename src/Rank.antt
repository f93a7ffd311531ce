-- ===== src/Rank.antt =====
-- hub/app/services/kanban_rank.py: fractional rank strings.
-- A rank is the list of its characters' positions in ALPHABET. The alphabet is in ascending ASCII
-- order, so comparing the strings is comparing these lists; position 62 stands for the `~` that
-- only a rebalance writes for a moment (repositories/kanban_repo.py).
pub mod Order
pub mod Between
pub mod Rebalance
use ampla.Shared.{
  ℕ, zero, suc, ◌+◌, ◌/◌, max, Option, none, some, List, [], ◌∷◌, length, if◌then◌else◌, nat_eq,
}

abbrev pub Rank : Type 0
Rank = List ℕ

-- BASE = len(ALPHABET)
abbrev pub base : ℕ
base = 62

-- RANK_LEN_MAX
abbrev pub rank_len_max : ℕ
rank_len_max = 48

-- `_INDEX[s[n]] if n < len(s) else 0`, for the suffix of `s` from `n`
abbrev pub digit : Rank → ℕ
digit [] = 0
digit (x ∷ xs) = x

abbrev pub rest : Rank → Rank
rest [] = []
rest (x ∷ xs) = xs

-- `None` is `upper_unbounded`
abbrev pub upper_digit : Option Rank → ℕ
upper_digit none = base
upper_digit (some hi) = digit hi

abbrev pub upper_rest : Option Rank → Option Rank
upper_rest none = none
upper_rest (some hi) = some (rest hi)

abbrev pub prepend : ℕ → Option Rank → Option Rank
prepend d none = none
prepend d (some r) = some (d ∷ r)

-- The `while True` of `rank_between` on fuel, over the suffixes of `lo` and `hi` from `n`;
-- `none` means that the fuel ran out.
unfoldable pub rank_loop : ℕ → Rank → Option Rank → Option Rank
rank_loop zero lo hi = none
rank_loop (suc fuel) lo hi =
    let lo_code = digit lo in
    let hi_code = upper_digit hi in
    let mid = (lo_code + hi_code) / 2 in
    let same = prepend lo_code (rank_loop fuel (rest lo) (upper_rest hi)) in
    let descend = prepend lo_code (rank_loop fuel (rest lo) none) in
    if nat_eq lo_code hi_code then same else if nat_eq mid lo_code then descend else some (mid ∷ [])

-- `lo or ""`
abbrev pub lower : Option Rank → Rank
lower none = []
lower (some lo) = lo

-- `not hi`: "" and None both mean +infinity
abbrev pub upper : Option Rank → Option Rank
upper none = none
upper (some []) = none
upper (some (x ∷ xs)) = some (x ∷ xs)

abbrev pub fuel_for : Option Rank → Option Rank → ℕ
fuel_for lo hi = length (lower lo) + length (lower hi) + 2

unfoldable pub rank_between : Option Rank → Option Rank → Option Rank
rank_between lo hi = rank_loop (fuel_for lo hi) (lower lo) (upper hi)

-- The loop of `rebalance_ranks`, `count` rounds from `prev`.
unfoldable pub ranks_after : ℕ → Option Rank → Option (List Rank)
ranks_after zero prev = some []
ranks_after (suc count) prev = elim (rank_between prev none) [
  | none ↦ none
  | some nxt ↦ elim (ranks_after count (some nxt)) [ none ↦ none | some more ↦ some (nxt ∷ more) ]
]

unfoldable pub rebalance_ranks : ℕ → Option (List Rank)
rebalance_ranks count = ranks_after count none

unfoldable pub max_rank_len : List Rank → ℕ
max_rank_len [] = 0
max_rank_len (r ∷ rs) = max (length r) (max_rank_len rs)
