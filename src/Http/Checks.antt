-- ===== src/Http/Checks.antt =====
-- Checks that follow one another and read no store: the first failure counts. They stay shut, so
-- that a success is taken apart step by step.
use backend_emd.Prelude.{◌≡◌, refl, Bool, true, false, if◌then◌else◌}
use backend_emd.Http.{HttpError, Result, ok, err}

infixl 5 ◌>>=◌ ◌>>◌
unfoldable pub ◌>>=◌ : {A B : Type 0} → Result A → (A → Result B) → Result B
ok a >>= f = f a
err e >>= f = err e

abbrev pub ◌>>◌ : {B : Type 0} → Result (Unit {0}) → Result B → Result B
m >> k = m >>= λ _. k

unfoldable pub refuse_if : Bool → HttpError → Result (Unit {0})
refuse_if c e = if c then err e else ok tt

inv_of :
    {A B : Type 0} {f : A → Result B} {b : B} (m : Result A)
    → (m >>= f) ≡ ok b
    → (a : A) × (m ≡ ok a) × (f a ≡ ok b)
unfolding ◌>>=◌
inv_of (ok a) h = (a, refl, h)
inv_of (err e) h = cc

pub >>=-inv :
    {A B : Type 0} {m : Result A} {f : A → Result B} {b : B}
    → (m >>= f) ≡ ok b
    → (a : A) × (m ≡ ok a) × (f a ≡ ok b)
>>=-inv {m} h = inv_of m h

pub refuse_if-inv : (c : Bool) (e : HttpError) → refuse_if c e ≡ ok tt → c ≡ false
unfolding refuse_if
refuse_if-inv true e h = cc
refuse_if-inv false e h = refl

pub ok_inj : {A : Type 0} {a b : A} → ok a ≡ ok b → a ≡ b
ok_inj h = cc
