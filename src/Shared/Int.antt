-- ===== src/Shared/Int.antt =====
-- Python's integers where a sign is possible: user ids, which may come out of a text.
use Prim.Native.Nat.{ℕ}
use mathlib.Core.Path.{◌≡◌, refl}
use mathlib.Core.Logic.{◌↔◌}
use mathlib.Core.Bool.{Bool, true, false}
use ampla.Shared.Tests.{Comparable, nat_eq, nat_eq_iff}

-- `negsuc n` is -(n + 1).
pub data ℤ : Type 0 where
  pos : ℕ → ℤ
  negsuc : ℕ → ℤ

abbrev pub int_eq : ℤ → ℤ → Bool
int_eq (pos a) (pos b) = nat_eq a b
int_eq (negsuc a) (negsuc b) = nat_eq a b
int_eq _ _ = false

pub int_eq_iff : (a b : ℤ) → (int_eq a b ≡ true) ↔ (a ≡ b)
int_eq_iff (pos a) (pos b) = (λ h. cc ((nat_eq_iff a b).0 h), λ h. (nat_eq_iff a b).1 (cc))
int_eq_iff (negsuc a) (negsuc b) = (λ h. cc ((nat_eq_iff a b).0 h), λ h. (nat_eq_iff a b).1 (cc))
int_eq_iff (pos a) (negsuc b) = (λ h. cc, λ h. cc)
int_eq_iff (negsuc a) (pos b) = (λ h. cc, λ h. cc)

pub int_eq_refl : (n : ℤ) → int_eq n n ≡ true
int_eq_refl n = (int_eq_iff n n).1 refl

instance abbrev pub eq_int : Comparable ℤ
eq_int = record { same = int_eq; same_iff = int_eq_iff }
