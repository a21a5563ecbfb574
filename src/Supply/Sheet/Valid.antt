-- ===== src/Supply/Sheet/Valid.antt =====
-- Which sheets of materials are accepted.
use backend_emd.Prelude.{
  ◌≡◌, ◌≢◌, ◌↔◌, refl, string_eq, contains, any, length, true, false, List, [], ◌∷◌, String, arith,
  All, eq_iff,
}
use backend_emd.Http.{ok}
use backend_emd.Store.{SupplySource}
use backend_emd.Supply.Move.{is_ours}
use backend_emd.Supply.Sheet.{
  ItemRef, undefined, null, inventory, LineDraft, SupplyDraft, is_given, lacks_text, is_bad_line,
  is_bad_supply, validate_from, validate_supplies,
}

-- A line of the client leaves the item out, and a line that leaves it out says what it is.
abbrev pub FitsSource : SupplySource → LineDraft → Type 0
FitsSource source line =
    (is_ours source ≡ false → line.item ≡ undefined)
    × (line.item ≡ undefined → lacks_text line.description ≡ false)

-- We bring something, if we bring the materials, and every line fits.
abbrev pub IsSheet : SupplyDraft → Type 0
IsSheet supply =
    (is_ours supply.source ≡ true → length supply.lines ≢ 0)
    × All (FitsSource supply.source) supply.lines

-- No two sheets are of one area.
abbrev pub HasDistinctAreas : List SupplyDraft → Type 0
HasDistinctAreas [] = Unit
HasDistinctAreas (supply ∷ supplies) =
    All (λ later. supply.area ≢ later.area) supplies × HasDistinctAreas supplies

abbrev AreNew : List String → List SupplyDraft → Type 0
AreNew seen supplies = All (λ supply. contains seen supply.area ≡ false) supplies

is_given_iff : (item : ItemRef) → (is_given item ≡ false) ↔ (item ≡ undefined)
is_given_iff undefined = (λ _. refl, λ _. refl)
is_given_iff null = (λ h. ground arith, λ h. ground arith)
is_given_iff (inventory id) = (λ h. ground arith, λ h. ground arith)

is_bad_lines_iff :
    (source : SupplySource) (lines : List LineDraft)
    → (any (is_bad_line source) lines ≡ false) ↔ All (FitsSource source) lines
unfolding is_bad_line
is_bad_lines_iff source [] = (λ h. tt, λ h. refl)
is_bad_lines_iff source (line ∷ lines) =
    ground (arith, is_bad_lines_iff source lines, is_given_iff line.item)

is_bad_supply_iff :
    (seen : List String) (supply : SupplyDraft)
    → (is_bad_supply seen supply ≡ false) ↔ ((contains seen supply.area ≡ false) × IsSheet supply)
unfolding is_bad_supply
is_bad_supply_iff seen supply = ground (arith, is_bad_lines_iff supply.source supply.lines)

AreNew-cons :
    (area : String) (seen : List String) (supplies : List SupplyDraft)
    → AreNew (area ∷ seen) supplies
      ↔ (All (λ later. area ≢ later.area) supplies × AreNew seen supplies)
AreNew-cons area seen [] = (λ h. (tt, tt), λ h. tt)
AreNew-cons area seen (supply ∷ supplies) =
    ground (arith, AreNew-cons area seen supplies, eq_iff area supply.area)

validate_from_iff :
    (seen : List String) (supplies : List SupplyDraft)
    → (validate_from seen supplies ≡ ok tt)
      ↔ (AreNew seen supplies × HasDistinctAreas supplies × All IsSheet supplies)
unfolding validate_from
validate_from_iff seen [] = (λ h. (tt, tt, tt), λ h. refl)
validate_from_iff seen (supply ∷ supplies) = ground (
  arith,
  is_bad_supply_iff seen supply,
  validate_from_iff (supply.area ∷ seen) supplies,
  AreNew-cons supply.area seen supplies,
)

AreNew-nil : (supplies : List SupplyDraft) → AreNew [] supplies
AreNew-nil [] = tt
AreNew-nil (supply ∷ supplies) = (refl, AreNew-nil supplies)

-- The sheets of a request are accepted exactly if no area stands there twice, a sheet of ours has
-- a line, a line of the client leaves the item of the inventory out (it is not even `null`), and a
-- line that leaves it out has a description.
pub validate_supplies_iff :
    (supplies : List SupplyDraft)
    → (validate_supplies supplies ≡ ok tt) ↔ (HasDistinctAreas supplies × All IsSheet supplies)
unfolding validate_supplies
validate_supplies_iff supplies = ground (arith, validate_from_iff [] supplies, AreNew-nil supplies)
