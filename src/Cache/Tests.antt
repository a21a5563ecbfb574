-- ===== src/Cache/Tests.antt =====
-- Two catalogues, of which one is invalidated; the theorem at this store.
use backend_emd.Prelude.{ℕ, ◌≡◌, refl, ◌↔◌, true, some, List, [], ◌∷◌, String}
use backend_emd.Cache.{Request, of_cache, forwarded, intercept}
use backend_emd.Cache.History.{Event, answered, invalidated, store_after, Fresh, intercept-of_cache}

abbrev to : String → Request
to controller = record {
  is_http = true;
  method = "GET";
  ttl = some 300;
  controller = controller;
  handler = "findAll";
  original_url = "/x";
}

abbrev events : List (Event ℕ)
events =
    invalidated "Role"
    ∷ answered (record { key = "Role:findAll:/x"; ttl = 300 }) 5 1000
    ∷ answered (record { key = "RoleArea:findAll:/x"; ttl = 300 }) 7 1000
    ∷ []

-- The other controller keeps its answer until it expires.
kept_until : intercept (to "RoleArea") 1299 (store_after events) ≡ of_cache 7
unfolding intercept store_after
kept_until = refl

expired :
    intercept (to "RoleArea") 1300 (store_after events)
    ≡ forwarded (some (record { key = "RoleArea:findAll:/x"; ttl = 300 }))
unfolding intercept store_after
expired = refl

dropped :
    intercept (to "Role") 1001 (store_after events)
    ≡ forwarded (some (record { key = "Role:findAll:/x"; ttl = 300 }))
unfolding intercept store_after
dropped = refl

intercept-of_cache_example :
    (intercept (to "RoleArea") 1299 (store_after events) ≡ of_cache 7)
    ↔ Fresh (to "RoleArea") 1299 events 7
intercept-of_cache_example = intercept-of_cache (to "RoleArea") 1299 events 7
