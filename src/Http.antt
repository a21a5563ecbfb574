-- ===== src/Http.antt =====
-- Failures of a request handler (the exceptions of @nestjs/common that the services throw) and
-- the handlers themselves: a handler reads and writes the store, and what it wrote before it
-- failed stays written, unless it ran in a transaction.
pub mod Checks
use backend_emd.Prelude.{
  ◌≡◌, sym, ap, ◌∙◌, ◌⊎◌, inl, inr, refl, Bool, Option, none, some, if◌then◌else◌,
}

pub data HttpError : Type 0 where
  bad_request unauthorized forbidden not_found conflict gone internal : HttpError

pub data Result {ℓ} (A : Type ℓ) : Type ℓ where
  ok : A → Result A
  err : HttpError → Result A

pub Result-cases {ℓ} :
    {A : Type ℓ} (r : Result A) → ((a : A) × (r ≡ ok a)) ⊎ ((e : HttpError) × (r ≡ err e))
Result-cases (ok a) = inl (a, refl)
Result-cases (err e) = inr (e, refl)

abbrev pub Action : Type 0 → Type 0 → Type 0
Action S A = S → Result A × S

module _ {S : Type 0} where
  infixl 5 ◌>>=◌ ◌>>◌
  abbrev pub ◌>>=◌ : {A B : Type 0} → Action S A → (A → Action S B) → Action S B
  ◌>>=◌ m f s = let (r, s') = m s in elim r [ ok a ↦ f a s' | err e ↦ (err e, s') ]

  abbrev pub ◌>>◌ : {A B : Type 0} → Action S A → Action S B → Action S B
  m >> k = m >>= λ _. k

  abbrev pub pure : {A : Type 0} → A → Action S A
  pure a s = (ok a, s)

  abbrev pub throw : {A : Type 0} → HttpError → Action S A
  throw e s = (err e, s)

  abbrev pub gets : {A : Type 0} → (S → A) → Action S A
  gets f s = (ok (f s), s)

  abbrev pub modify : (S → S) → Action S (Unit {0})
  modify f s = (ok tt, f s)

  abbrev pub throw_if : Bool → HttpError → Action S (Unit {0})
  throw_if c e s = (if c then err e else ok tt, s)

  -- The value, or the failure if there is none.
  abbrev pub or_throw : {A : Type 0} → Option A → HttpError → Action S A
  or_throw o e s = (elim o [ none ↦ err e | some a ↦ ok a ], s)

  -- A check that reads nothing but its arguments.
  abbrev pub check : {A : Type 0} → Result A → Action S A
  check r s = (r, s)

  -- How a transaction that began in `s` ends: a failure undoes the writes.
  abbrev pub settle : {A : Type 0} → S → Result A × S → Result A × S
  settle s (r, s') = elim r [ ok a ↦ (ok a, s') | err e ↦ (err e, s) ]

  -- `prisma.$transaction`
  abbrev pub transaction : {A : Type 0} → Action S A → Action S A
  transaction m s = settle s (m s)

  pub settle-err :
      {A : Type 0} (s : S) (p : Result A × S) {e : HttpError}
      → p.0 ≡ err e
      → settle s p ≡ (err e, s)
  settle-err s p h = rw h refl

module _ {S A B : Type 0} (m : Action S A) (f : A → Action S B) (s : S) where
  pub >>=-eq-of-ok : {a : A} → (m s).0 ≡ ok a → (m >>= f) s ≡ f a (m s).1
  >>=-eq-of-ok h = rw (h, ◌>>=◌)

  pub >>=-eq-of-err : {e : HttpError} → (m s).0 ≡ err e → (m >>= f) s ≡ (err e, (m s).1)
  >>=-eq-of-err h = rw (h, ◌>>=◌)

  pub >>=-eq : {a : A} {t : S} → m s ≡ (ok a, t) → (m >>= f) s ≡ f a t
  >>=-eq {a} {t} h = >>=-eq-of-ok (ap (λ p. p.0) h) ∙ ap (λ p. f a p.1) h

  pub >>=-eq_err : {e : HttpError} {t : S} → m s ≡ (err e, t) → (m >>= f) s ≡ (err e, t)
  >>=-eq_err {e} {t} h = >>=-eq-of-err (ap (λ p. p.0) h) ∙ ap (λ p. (err e, p.1)) h

  -- The second step of a success, and the state between the two.
  pub >>=-inv :
      {b : B}
      → ((m >>= f) s).0 ≡ ok b
      → (a : A) × ((m s).0 ≡ ok a) × ((f a (m s).1).0 ≡ ok b) × ((m >>= f) s ≡ f a (m s).1)
  >>=-inv h = elim (Result-cases (m s).0) [
    | inr (e, failed) ↦ absurd (impossible (ap (λ p. p.0) (>>=-eq-of-err failed)) h)
    | inl (a, done) ↦ (a, done, (ap (λ p. p.0) (sym (>>=-eq-of-ok done)) ∙ h), >>=-eq-of-ok done)
  ]
    where
      impossible : {e : HttpError} {b : B} → ((m >>= f) s).0 ≡ err e → ((m >>= f) s).0 ≡ ok b → ⊥
      impossible p q = cc

-- What only looks writes nothing, however it ends.
module _ {S : Type 0} where
  abbrev pub ReadsOnly : {A : Type 0} → Action S A → Type 0
  ReadsOnly m = (s : S) → (m s).1 ≡ s

  pub ReadsOnly->>= :
      {A B : Type 0} (m : Action S A) (f : A → Action S B)
      → ReadsOnly m
      → ((a : A) → ReadsOnly (f a))
      → ReadsOnly (m >>= f)
  ReadsOnly->>= m f h k s = elim (Result-cases (m s).0) [
    | inl (a, done) ↦ rw (>>=-eq-of-ok m f s done) (k a (m s).1 ∙ h s)
    | inr (e, failed) ↦ rw (>>=-eq-of-err m f s failed) (h s)
  ]

abbrev pub then_check : Result (Unit {0}) → Result (Unit {0}) → Result (Unit {0})
then_check (ok _) r = r
then_check (err e) r = err e

pub then_check-inv : (r q : Result (Unit {0})) → then_check r q ≡ ok tt → (r ≡ ok tt) × (q ≡ ok tt)
then_check-inv (ok u) q h = (refl, h)
then_check-inv (err e) q h = cc

abbrev pub guard : Bool → HttpError → Result (Unit {0})
guard c e = if c then err e else ok tt
