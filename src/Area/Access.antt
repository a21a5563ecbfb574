-- ===== src/Area/Access.antt =====
-- Who may see and work on what: src/area/area-access.ts, src/order/role-stage-mapping.ts and
-- `isBranchOnlyUser` of src/branch/branch-access.ts. Roles and area slugs are texts, as in the
-- access token.
use backend_emd.Prelude.{
  is_empty, ℕ, string_eq, ◌==◌, contains, keep, any, or_else, Bool, false, not, ◌&&◌, Option, none,
  some, List, [], ◌∷◌, String,
}

-- Role
abbrev pub admin : String
admin = "admin"

abbrev pub recepcion : String
recepcion = "recepcion"

abbrev pub superuser : String
superuser = "superuser"

abbrev pub sucursal : String
sucursal = "sucursal"

abbrev pub design_area : String
design_area = "diseno"

abbrev pub reception_inventory_area : String
reception_inventory_area = "recepcion"

pub legacy_area_roles : List String
legacy_area_roles = "taller" ∷ "dtf" ∷ "bordado" ∷ "diseno" ∷ "laser" ∷ "impresiones" ∷ []

-- `AreaMember`, what a session says; both lists may be absent from the token.
pub record AreaMember : Type 0 where
  pub roles : Option (List String)
  pub areas : Option (List String)

-- `RequestingUser`
pub record RequestingUser : Type 0 where
  pub user_id : ℕ
  pub roles : List String
  pub areas : Option (List String)

abbrev pub member_of : RequestingUser → AreaMember
member_of u = record { roles = some u.roles; areas = u.areas }

unfoldable pub areas_of : AreaMember → List String
areas_of user = or_else user.areas []

unfoldable pub production_areas_of : AreaMember → List String
unfolding areas_of
production_areas_of user = keep (λ area. not (area == design_area)) (areas_of user)

-- An absent area (`null`) and an empty one are no area.
unfoldable pub belongs_to_area : AreaMember → Option String → Bool
unfolding areas_of
belongs_to_area user none = false
belongs_to_area user (some area) = not (area == "") && contains (areas_of user) area

-- FULL_VISIBILITY_ROLES
abbrev pub full_visibility_roles : List String
full_visibility_roles = admin ∷ superuser ∷ recepcion ∷ []

unfoldable pub is_full_visibility_role : Option (List String) → Bool
is_full_visibility_role none = false
is_full_visibility_role (some roles) = any (λ r. contains full_visibility_roles r) roles

unfoldable pub is_branch_only_user : AreaMember → Bool
unfolding is_full_visibility_role areas_of
is_branch_only_user user =
    contains (or_else user.roles []) sucursal
    && (not (is_full_visibility_role user.roles) && is_empty (areas_of user))

-- The token's payload, completed: both lists are there.
pub record Session : Type 0 where
  pub roles : List String
  pub areas : List String

unfoldable pub normalize_access_payload : AreaMember → Session
unfolding legacy_area_roles
normalize_access_payload payload =
    let roles = or_else payload.roles [] in
    elim payload.areas [
      | some areas ↦ record { roles = roles; areas = areas }
      | none ↦ record {
        roles = keep (λ role. not (contains legacy_area_roles role)) roles;
        areas = keep (λ role. contains legacy_area_roles role) roles;
      }
    ]
