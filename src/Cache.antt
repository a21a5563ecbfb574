-- ===== src/Cache.antt =====
-- The cache of answers in memory: src/common/interceptors/in-memory-cache.interceptor.ts. A
-- request is answered from the store or forwarded; what a forwarded request is answered is written
-- later, when other requests may have come between. A value is of any type `V`.
pub mod History
mod Tests
use Prim.Native.String.{◌++◌}
use text.Mathlib.Text.{starts_with}
use backend_emd.Prelude.{
  ℕ, ◌+◌, ltb, ◌==◌, string_eq, nat_eq, Bool, true, false, ◌&&◌, not, Option, none, some, or_else,
  List, [], ◌∷◌, String, if◌then◌else◌,
}

pub record CacheEntry {ℓ} (V : Type ℓ) : Type ℓ where
  pub value : V
  pub expires_at : ℕ

-- The parts of the context that are read: `ttl` is the metadata of `@CacheTtl` on the method.
pub record Request : Type 0 where
  pub is_http : Bool
  pub method : String
  pub ttl : Option ℕ
  pub controller : String
  pub handler : String
  pub original_url : String

-- An answer that will be written when it comes.
pub record Pending : Type 0 where
  pub key : String
  pub ttl : ℕ

pub data Reply {ℓ} (V : Type ℓ) : Type ℓ where
  of_cache : V → Reply V
  forwarded : Option Pending → Reply V

abbrev pub controller_prefix : String → String
controller_prefix controller = controller ++ ":"

unfoldable pub key_of : Request → String
key_of r = controller_prefix r.controller ++ (r.handler ++ (":" ++ r.original_url))

-- What the metadata of the method says, where the answer is one to be kept: `!ttlMs` is true of 0.
unfoldable pub ttl_of : Request → Option ℕ
ttl_of r =
    if r.is_http && r.method == "GET" then (if or_else r.ttl 0 == 0 then none else r.ttl) else none

-- `cacheStore`
abbrev pub CacheStore {ℓ} : Type ℓ → Type ℓ
CacheStore V = List (String × CacheEntry V)

module _ {ℓ} {V : Type ℓ} where
  unfoldable pub get_entry : String → CacheStore V → Option (CacheEntry V)
  get_entry k [] = none
  get_entry k ((j, e) ∷ m) = let rest = get_entry k m in if j == k then some e else rest

  unfoldable pub set_entry : String → CacheEntry V → CacheStore V → CacheStore V
  set_entry k e [] = (k, e) ∷ []
  set_entry k e ((j, d) ∷ m) =
      let rest = set_entry k e m in if j == k then (j, e) ∷ m else (j, d) ∷ rest

  unfoldable pub invalidate_controller_cache : String → CacheStore V → CacheStore V
  invalidate_controller_cache controller [] = []
  invalidate_controller_cache controller ((j, e) ∷ m) =
      let rest = invalidate_controller_cache controller m in
      if starts_with j (controller_prefix controller) then rest else (j, e) ∷ rest

  -- `tap`: the answer came at `now`.
  unfoldable pub keep_answer : Pending → V → ℕ → CacheStore V → CacheStore V
  unfolding set_entry
  keep_answer p v now = set_entry p.key (record { value = v; expires_at = now + p.ttl })

  abbrev pub serve : Pending → Option (CacheEntry V) → ℕ → Reply V
  serve p none now = forwarded (some p)
  serve p (some e) now = if ltb now e.expires_at then of_cache e.value else forwarded (some p)

  unfoldable pub intercept : Request → ℕ → CacheStore V → Reply V
  unfolding ttl_of key_of get_entry
  intercept r now m = elim (ttl_of r) [
    | none ↦ forwarded none
    | some ttl ↦ serve (record { key = key_of r; ttl = ttl }) (get_entry (key_of r) m) now
  ]
