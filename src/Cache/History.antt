-- ===== src/Cache/History.antt =====
-- The cache against the history of what was answered and invalidated
-- (src/common/interceptors/in-memory-cache.interceptor.ts).
use text.Mathlib.Text.{starts_with}
use text.Mathlib.TextEquality.{eq_iff}
use native.Mathlib.Omega.{arith}
use backend_emd.Prelude.{
  ℕ, ◌+◌, ◌<◌, ◌==◌, string_eq, ◌≡◌, refl, ap, ◌≢◌, ◌∙◌, ◌↔◌, true, Option, none, some,
  Option-cases, Bool-cases, ltb, sym, inl, inr, List, [], ◌∷◌, String, if◌then◌else◌,
}
use backend_emd.Cache.{
  CacheEntry, CacheStore, Request, Pending, of_cache, forwarded, key_of, ttl_of, get_entry,
  set_entry, invalidate_controller_cache, keep_answer, intercept, controller_prefix, serve,
}

-- What changes the store.
pub data Event {ℓ} (V : Type ℓ) : Type ℓ where
  answered : Pending → V → ℕ → Event V
  invalidated : String → Event V

ttl_of-kept :
    (r : Request) (n : ℕ)
    → (ttl_of r ≡ some n) ↔ ((r.is_http ≡ true) × (r.method ≡ "GET") × (r.ttl ≡ some n) × (n ≢ 0))
unfolding ttl_of
ttl_of-kept r n =
    (λ h. ground (arith, h, eq_iff r.method "GET"), λ h. ground (arith, h, eq_iff r.method "GET"))

module _ {ℓ} {V : Type ℓ} where
  -- The store after the events, the last of them first.
  unfoldable pub store_after : List (Event V) → CacheStore V
  unfolding keep_answer invalidate_controller_cache
  store_after [] = []
  store_after (answered p v now ∷ es) = keep_answer p v now (store_after es)
  store_after (invalidated controller ∷ es) =
      invalidate_controller_cache controller (store_after es)

  -- The last answer under the key, if its controller has not been invalidated since.
  unfoldable pub last_answer : String → List (Event V) → Option (CacheEntry V)
  last_answer k [] = none
  last_answer k (answered p v now ∷ es) =
      let rest = last_answer k es in
      if p.key == k then some (record { value = v; expires_at = now + p.ttl }) else rest
  last_answer k (invalidated controller ∷ es) =
      let rest = last_answer k es in
      if starts_with k (controller_prefix controller) then none else rest

  get_entry-set_entry :
      (j k : String) (e : CacheEntry V) (m : CacheStore V)
      → get_entry j (set_entry k e m) ≡ (if k == j then some e else get_entry j m)
  unfolding get_entry set_entry
  get_entry-set_entry j k e [] = refl
  get_entry-set_entry j k e ((i, d) ∷ m) =
      ground (arith, eq_iff i k, eq_iff k j, eq_iff i j, get_entry-set_entry j k e m)

  get_entry-invalidate_controller_cache :
      (k controller : String) (m : CacheStore V)
      → get_entry k (invalidate_controller_cache controller m)
        ≡ (if starts_with k (controller_prefix controller) then none else get_entry k m)
  unfolding get_entry invalidate_controller_cache
  get_entry-invalidate_controller_cache k controller [] = ground arith
  get_entry-invalidate_controller_cache k controller ((i, d) ∷ m) =
      ground (arith, eq_iff i k, get_entry-invalidate_controller_cache k controller m)

  get_entry-store_after :
      (k : String) (es : List (Event V)) → get_entry k (store_after es) ≡ last_answer k es
  unfolding get_entry store_after last_answer keep_answer
  get_entry-store_after k [] = refl
  get_entry-store_after k (answered p v now ∷ es) =
      get_entry-set_entry k p.key _ (store_after es)
      ∙ ap (λ o. if p.key == k then some (record { value = v; expires_at = now + p.ttl }) else o)
          (get_entry-store_after k es)
  get_entry-store_after k (invalidated controller ∷ es) =
      get_entry-invalidate_controller_cache k controller (store_after es)
      ∙ ap (λ o. if starts_with k (controller_prefix controller) then none else o)
          (get_entry-store_after k es)

  -- The last answer of the request, which is still good at `now`.
  pub record Fresh (r : Request) (now : ℕ) (es : List (Event V)) (v : V) : Type ℓ where
    pub over_http : r.is_http ≡ true
    pub gets : r.method ≡ "GET"
    pub ttl : ℕ
    pub keeps : r.ttl ≡ some ttl
    pub lasts : ttl ≢ 0
    pub entry : CacheEntry V
    pub found : last_answer (key_of r) es ≡ some entry
    pub value : entry.value ≡ v
    pub alive : now < entry.expires_at

  serve-of_cache :
      (p : Pending) (o : Option (CacheEntry V)) (now : ℕ) (v : V)
      → (serve p o now ≡ of_cache v)
        ↔ ((e : CacheEntry V) × (o ≡ some e) × (e.value ≡ v) × (now < e.expires_at))
  serve-of_cache p none now v = (λ h. ground arith, λ h. ground arith)
  serve-of_cache p (some e) now v = elim (Bool-cases (ltb now e.expires_at)) [
    | inl live ↦
        let is : serve p (some e) now ≡ of_cache e.value = rw live refl in
        (λ h. (e, refl, cc, ground (arith, live)), λ (d, same, value, alive). cc)
    | inr dead ↦
        let is : serve p (some e) now ≡ forwarded (some p) = rw dead refl in
        (
          λ h. cc,
          λ (d, same, value, alive).
              let at : d.expires_at ≡ e.expires_at =
                ap (λ (x : Option (CacheEntry V)). elim x [ none ↦ 0 | some y ↦ y.expires_at ])
                  (sym same) in
              ground (arith, dead, alive, at),
        )
  ]

  ttl_of-Fresh :
      {r : Request} {now : ℕ} {es : List (Event V)} {v : V} (n : ℕ)
      → ttl_of r ≡ some n
      → (e : CacheEntry V) × (last_answer (key_of r) es ≡ some e)
        × (e.value ≡ v)
        × (now < e.expires_at)
      → Fresh r now es v
  ttl_of-Fresh {r = r} n kept (e, found, value, alive) =
      let (over_http, gets, keeps, lasts) = (ttl_of-kept r n).0 kept in
      record {
        over_http = over_http;
        gets = gets;
        ttl = n;
        keeps = keeps;
        lasts = lasts;
        entry = e;
        found = found;
        value = value;
        alive = alive;
      }

  -- A request is answered from the cache with a value exactly when it is a GET over HTTP to a method
  -- with a time to live other than 0, the value is the last answer under the request's key, no
  -- controller whose name and colon the key begins with has been invalidated since, and the answer
  -- has not expired. The store is the one after any sequence of answers, to whichever requests, and
  -- of invalidations.
  pub intercept-of_cache :
      (r : Request) (now : ℕ) (es : List (Event V)) (v : V)
      → (intercept r now (store_after es) ≡ of_cache v) ↔ Fresh r now es v
  unfolding intercept
  intercept-of_cache r now es v = elim (Option-cases (ttl_of r)) [
    | inl none_kept ↦
        let is : intercept r now (store_after es) ≡ forwarded none =
          rw (none_kept, intercept) refl in
        (
          λ h. cc,
          λ f.
              let kept : ttl_of r ≡ some f.ttl =
                (ttl_of-kept r f.ttl).1 (f.over_http, f.gets, f.keeps, f.lasts) in
              cc,
        )
    | inr (n, kept) ↦
        let is : intercept r now (store_after es)
            ≡ serve (record { key = key_of r; ttl = n }) (last_answer (key_of r) es) now =
          rw (kept, get_entry-store_after (key_of r) es, intercept) refl in
        let read =
          serve-of_cache (record { key = key_of r; ttl = n }) (last_answer (key_of r) es) now v in
        (
          λ h. ttl_of-Fresh n kept (read.0 (sym is ∙ h)),
          λ f. is ∙ read.1 (f.entry, f.found, f.value, f.alive),
        )
  ]
