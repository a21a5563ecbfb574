-- ===== src/Prelude/Equality.antt =====
-- `===` as an instance argument, with its law, and membership by it (`xs.includes(x)`).
use Prim.Native.Nat.{ℕ}
use Prim.Native.String.{String}
use mathlib.Core.Path.{◌≡◌, refl}
use mathlib.Core.Logic.{◌↔◌}
use mathlib.Core.Bool.{Bool, true, false, ◌||◌}
use mathlib.Core.Option.{Option, none, some}
use mathlib.Core.List.{List, [], ◌∷◌}
use text.Mathlib.Text.{◌==◌ as str_eq}
use text.Mathlib.TextEquality.{eq_iff}
use backend_emd.Prelude.Tests.{nat_beq, nat_beq_iff}
use backend_emd.Prelude.Int.{ℤ, int_beq, int_beq_iff}

-- A Boolean test that decides equality.
pub record Equality {ℓ} (A : Type ℓ) : Type ℓ where
  pub same : A → A → Bool
  pub decides : (a b : A) → (same a b ≡ true) ↔ (a ≡ b)

instance abbrev pub int_eq : Equality ℤ
int_eq = record { decides = int_beq_iff; same = int_beq }

instance abbrev pub nat_eq : Equality ℕ
nat_eq = record { decides = nat_beq_iff; same = nat_beq }

instance abbrev pub string_eq : Equality String
string_eq = record { decides = eq_iff; same = str_eq }

module _ {ℓ} {A : Type ℓ} ⦃e : Equality A⦄ where
  infix 50 ◌==◌
  abbrev pub ◌==◌ : A → A → Bool
  x == y = e.same x y

  abbrev pub option_beq : Option A → Option A → Bool
  option_beq none none = true
  option_beq none (some b) = false
  option_beq (some a) none = false
  option_beq (some a) (some b) = a == b

  pub option_beq_iff : (a b : Option A) → (option_beq a b ≡ true) ↔ (a ≡ b)
  option_beq_iff none none = (λ h. refl, λ h. refl)
  option_beq_iff none (some b) = (λ h. cc, λ h. cc)
  option_beq_iff (some a) none = (λ h. cc, λ h. cc)
  option_beq_iff (some a) (some b) =
      (λ h. (let p : a ≡ b = (e.decides a b).0 h in cc), λ h. (e.decides a b).1 (cc))

  instance abbrev pub option_eq : Equality (Option A)
  option_eq = record { decides = option_beq_iff; same = option_beq }

  pub ==_refl : (a : A) → (a == a) ≡ true
  ==_refl a = (e.decides a a).1 refl

  -- `xs.includes(a)`
  abbrev pub contains : List A → A → Bool
  contains [] a = false
  contains (x ∷ xs) a = x == a || contains xs a
