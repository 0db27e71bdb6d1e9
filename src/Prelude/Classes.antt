-- ===== src/Prelude/Classes.antt =====
-- Equality tests as an interface, for the keys of the program's maps.
use Prim.Native.Nat.{ℕ}
use mathlib.Core.Path.{◌≡◌, refl}
use mathlib.Core.Logic.{◌↔◌}
use mathlib.Core.Bool.{Bool, true, ◌&&◌}
use Prim.Native.String.{String}
use text.Mathlib.TextEquality.{eq_iff as str_beq_iff}
use text.Mathlib.Text.{◌==◌ as str_beq}
use native.Mathlib.Omega.{arith}
use nova_connect.Prelude.Tests.{nat_beq, nat_beq_iff}

-- `===` on the values that a map is keyed by.
pub record Eq {ℓ} (Key : Type ℓ) : Type ℓ where
  pub beq : Key → Key → Bool
  pub beq_iff : (k j : Key) → (beq k j ≡ true) ↔ (k ≡ j)

-- A pair of numbers, as the ids `<user>-<socket>` are.
abbrev pub pair_beq : ℕ × ℕ → ℕ × ℕ → Bool
pair_beq (a, b) (c, d) = nat_beq a c && nat_beq b d

pub pair_beq_iff : (p q : ℕ × ℕ) → (pair_beq p q ≡ true) ↔ (p ≡ q)
pair_beq_iff (a, b) (c, d) = ground arith

instance abbrev pub pair_eq : Eq (ℕ × ℕ)
pair_eq = record { beq = pair_beq; beq_iff = pair_beq_iff }

instance abbrev pub string_eq : Eq String
string_eq = record { beq = str_beq; beq_iff = str_beq_iff }

module _ {ℓ} {Key : Type ℓ} ⦃same : Eq Key⦄ where
  infix 50 ◌==◌
  abbrev pub ◌==◌ : Key → Key → Bool
  k == j = same.beq k j

  pub beq_refl : (k : Key) → (k == k) ≡ true
  beq_refl k = (same.beq_iff k k).1 refl

instance abbrev pub nat_eq : Eq ℕ
nat_eq = record { beq = nat_beq; beq_iff = nat_beq_iff }
