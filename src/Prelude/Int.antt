-- ===== src/Prelude/Int.antt =====
-- Integers over the native numbers: exact decimals are integers in their smallest unit.
use Prim.Native.Nat.{ℕ, suc, ◌+◌, ◌-◌, ◌≤◌}
use mathlib.Core.Path.{◌≡◌}
use mathlib.Core.Logic.{◌↔◌}
use mathlib.Core.Bool.{Bool, true}
use native.Mathlib.Omega.{arith}
use backend_emd.Prelude.Tests.{ltb, leb, nat_beq, if◌then◌else◌}

-- `negsuc n` is -(n + 1).
pub data ℤ : Type 0 where
  pos : ℕ → ℤ
  negsuc : ℕ → ℤ

abbrev pub pos_part : ℤ → ℕ
pos_part (pos n) = n
pos_part (negsuc n) = 0

abbrev pub neg_part : ℤ → ℕ
neg_part (pos n) = 0
neg_part (negsuc n) = suc n

abbrev pub sub_ℕ : ℕ → ℕ → ℤ
sub_ℕ a b = if leb b a then pos (a - b) else negsuc (b - a - 1)

infixl 65 ◌+ℤ◌ ◌-ℤ◌
infix 50 ◌≤ℤ◌
unfoldable pub ◌+ℤ◌ : ℤ → ℤ → ℤ
a +ℤ b = sub_ℕ (pos_part a + pos_part b) (neg_part a + neg_part b)

unfoldable pub ◌-ℤ◌ : ℤ → ℤ → ℤ
a -ℤ b = sub_ℕ (pos_part a + neg_part b) (neg_part a + pos_part b)

abbrev pub ◌≤ℤ◌ : ℤ → ℤ → Type 0
a ≤ℤ b = pos_part a + neg_part b ≤ pos_part b + neg_part a

abbrev pub ltb_ℤ : ℤ → ℤ → Bool
ltb_ℤ a b = ltb (pos_part a + neg_part b) (pos_part b + neg_part a)

abbrev pub leb_ℤ : ℤ → ℤ → Bool
leb_ℤ a b = leb (pos_part a + neg_part b) (pos_part b + neg_part a)

abbrev pub int_beq : ℤ → ℤ → Bool
int_beq a b = nat_beq (pos_part a + neg_part b) (pos_part b + neg_part a)

pub +ℤ_parts :
    (a b : ℤ)
    → pos_part (a +ℤ b) + neg_part a + neg_part b ≡ neg_part (a +ℤ b) + pos_part a + pos_part b
unfolding ◌+ℤ◌
+ℤ_parts a b = ground arith

pub -ℤ_parts :
    (a b : ℤ)
    → pos_part (a -ℤ b) + neg_part a + pos_part b ≡ neg_part (a -ℤ b) + pos_part a + neg_part b
unfolding ◌-ℤ◌
-ℤ_parts a b = ground arith

pub eq_of_parts : (a b : ℤ) → pos_part a + neg_part b ≡ pos_part b + neg_part a → a ≡ b
eq_of_parts a b h = ground arith

pub ruleset int_laws = (arith, +ℤ_parts, -ℤ_parts, eq_of_parts)

pub int_beq_iff : (a b : ℤ) → (int_beq a b ≡ true) ↔ (a ≡ b)
int_beq_iff a b = ground arith

pub parts_of_eq : (a b : ℤ) → a ≡ b → pos_part a + neg_part b ≡ pos_part b + neg_part a
parts_of_eq a b h = rw h

-- Two balances that change by the same amounts, one after the other.
pub balance_trans : (a b c la lb lc : ℤ) → b +ℤ la ≡ a +ℤ lb → c +ℤ lb ≡ b +ℤ lc → c +ℤ la ≡ a +ℤ lc
balance_trans a b c la lb lc h k = omega (int_laws, parts_of_eq _ _ h, parts_of_eq _ _ k)

-- What one side gains the other loses.
pub balance_shift : (a b d x y : ℤ) → b ≡ a +ℤ d → y +ℤ d ≡ x → b +ℤ y ≡ a +ℤ x
balance_shift a b d x y h k = omega (int_laws, parts_of_eq _ _ h, parts_of_eq _ _ k)

-- A balance that grows by `d`, and a log that grows by `d`.
pub balance_record : (a d l l' : ℤ) → l' ≡ l +ℤ (d +ℤ pos 0) → a +ℤ d +ℤ l ≡ a +ℤ l'
balance_record a d l l' h = omega (int_laws, parts_of_eq _ _ h)

pub balance_cancel : (a b t t' : ℤ) → t' ≡ t → a +ℤ t' ≡ b +ℤ t → a ≡ b
balance_cancel a b t t' e h = omega (int_laws, parts_of_eq _ _ e, parts_of_eq _ _ h)
