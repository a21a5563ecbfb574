-- ===== src/Inventory/Movements.antt =====
-- What a movement does to the stock and to its log.
use backend_emd.Prelude.{
  ℕ, ◌≡◌, inl, inr, refl, sym, subst, nat_eq, string_eq, ◌==◌, Bool, true, false, not, Option, none,
  some, arith, Option-cases, if◌then◌else◌, String,
}
use backend_emd.Prelude.Int.{ℤ, pos, ◌+ℤ◌, ◌-ℤ◌, ◌≤ℤ◌, ltb_ℤ, int_laws, parts_of_eq, balance_record}
use backend_emd.Prelude.Table.{row, row-put, Each, Each-put, Each-row}
use backend_emd.Http.{ok, Result-cases, ◌>>=◌, Action, >>=-eq-of-ok}
use backend_emd.Area.Access.{RequestingUser, is_full_visibility_role}
use backend_emd.Store.{MovementType, entrada, salida, ajuste, Item, Store}
use backend_emd.Notification.Frame.{
  Tells, OnlyTells, OnlyTells->>=, Tells->>=, create_notification_for_users-OnlyTells,
}
use backend_emd.Supply.Move.Conserve.{stock, logged, logged-append}
use backend_emd.Inventory.{
  MovementDraft, Balance, delta_for, move_stock, write_movement, tell_managers, tell_if,
  tell_of_movement, register_checked, register_movement, assert_may_register, manager_recipients,
  source_of, min_stock_of, cost_after, runs_low,
}

-- No item has a negative quantity.
abbrev pub HasNoDebt : Store → Type 0
HasNoDebt s = Each (λ _ item. pos 0 ≤ℤ item.quantity) s.items

-- From `s` to `s'` the stock of every item moves by what is logged, and if no stock was negative
-- none is.
pub record Books (s s' : Store) : Type 0 where
  pub recorded : (i : ℕ) → stock i s' +ℤ logged i s.movements ≡ stock i s +ℤ logged i s'.movements
  pub nonnegative : HasNoDebt s → HasNoDebt s'

Books-refl : (s : Store) → Books s s
Books-refl s = record { recorded = λ i. refl; nonnegative = λ h. h }

Books-told : (s m t : Store) → Books s m → Tells m t → Books s t
Books-told s m t b same =
    subst (Books s) (sym same) (record { recorded = b.recorded; nonnegative = b.nonnegative })

delta_for-nonneg :
    (type : MovementType) (amount current delta : ℤ)
    → pos 0 ≤ℤ amount
    → pos 0 ≤ℤ current
    → delta_for type amount current ≡ ok delta
    → pos 0 ≤ℤ current +ℤ delta
unfolding delta_for
delta_for-nonneg entrada amount current delta h k e =
    let same : amount ≡ delta = ground arith in omega (int_laws, parts_of_eq _ _ same)
delta_for-nonneg salida amount current delta h k e =
    let enough : ltb_ℤ current amount ≡ false = ground arith in
    let same : pos 0 -ℤ amount ≡ delta = ground (arith, enough) in
    grind (int_laws, parts_of_eq (pos 0 -ℤ amount) delta same)
delta_for-nonneg ajuste amount current delta h k e =
    let same : amount -ℤ current ≡ delta = ground arith in omega (int_laws, parts_of_eq _ _ same)

tell_managers-OnlyTells : (type : String) (actor : ℕ) → OnlyTells (tell_managers type actor)
unfolding tell_managers
tell_managers-OnlyTells type actor s =
    create_notification_for_users-OnlyTells (manager_recipients actor s) type none s

tell_if-OnlyTells : (b : Bool) (m : Action Store (Unit {0})) → OnlyTells m → OnlyTells (tell_if b m)
tell_if-OnlyTells true m h s = h s
tell_if-OnlyTells false m h s = refl

pub tell_of_movement-OnlyTells :
    (actor : RequestingUser) (min_stock : Option ℤ) (b : Balance)
    → OnlyTells (tell_of_movement actor min_stock b)
unfolding tell_of_movement
tell_of_movement-OnlyTells actor min_stock b =
    let low = tell_managers "inventory_low_stock" actor.user_id in
    let by_area = tell_managers "inventory_area_movement" actor.user_id in
    let of_area = not (is_full_visibility_role (some actor.roles)) in
    OnlyTells->>= (tell_if (runs_low min_stock b) low) (λ _. tell_if of_area by_area)
      (tell_if-OnlyTells (runs_low min_stock b) low
        (tell_managers-OnlyTells "inventory_low_stock" actor.user_id))
      (λ _.
        tell_if-OnlyTells of_area by_area
          (tell_managers-OnlyTells "inventory_area_movement" actor.user_id))

tell_if-ok :
    (b : Bool) (m : Action Store (Unit {0})) (s : Store)
    → (m s).0 ≡ ok tt
    → (tell_if b m s).0 ≡ ok tt
tell_if-ok true m s h = h
tell_if-ok false m s h = refl

-- The messages are attempts: they never fail.
pub tell_of_movement-ok :
    (actor : RequestingUser) (min_stock : Option ℤ) (b : Balance) (s : Store)
    → (tell_of_movement actor min_stock b s).0 ≡ ok tt
unfolding tell_of_movement tell_managers
tell_of_movement-ok actor min_stock b s =
    let low = tell_if (runs_low min_stock b) (tell_managers "inventory_low_stock" actor.user_id) in
    let of_area =
      tell_if (not (is_full_visibility_role (some actor.roles)))
        (tell_managers "inventory_area_movement" actor.user_id) in
    rw (>>=-eq-of-ok low (λ _. of_area) s (tell_if-ok (runs_low min_stock b) _ s refl))
      (tell_if-ok (not (is_full_visibility_role (some actor.roles))) _ (low s).1 refl)

module _ (id : ℕ) (dto : MovementDraft) (positive : pos 0 ≤ℤ dto.quantity) where
  stock-write_movement :
      (actor : ℕ) (source : String) (item : Item) (delta : ℤ) (s : Store) (i : ℕ)
      → row id s.items ≡ some item
      → stock i (write_movement id dto actor source item delta s)
        ≡ stock i s +ℤ (if id == i then delta else pos 0)
  stock-write_movement actor source item delta s i e = grind (
    int_laws,
    row-put i id
        (record item { quantity = item.quantity +ℤ delta; unit_cost = cost_after dto item })
        s.items,
  )

  write_movement-Books :
      (actor : ℕ) (source : String) (item : Item) (delta : ℤ) (s : Store)
      → row id s.items ≡ some item
      → delta_for dto.type dto.quantity item.quantity ≡ ok delta
      → Books s (write_movement id dto actor source item delta s)
  write_movement-Books actor source item delta s there ok_delta = record {
    recorded = λ i.
        rw (stock-write_movement actor source item delta s i there)
          (balance_record (stock i s) _ _ _ (logged-append i s.movements _));
    nonnegative = λ h.
        Each-put (λ _ x. pos 0 ≤ℤ x.quantity) id _ s.items h
          (delta_for-nonneg dto.type dto.quantity item.quantity delta positive
            (Each-row (λ _ x. pos 0 ≤ℤ x.quantity) id item s.items h there) ok_delta);
  }

  move_stock-Books :
      (actor : ℕ) (source : String) (s : Store) → Books s (move_stock id dto actor source s).1
  unfolding move_stock
  move_stock-Books actor source s = elim (Option-cases (row id s.items)) [
    | inl missing ↦ rw (missing, move_stock) (Books-refl s)
    | inr (item, there) ↦ elim (Result-cases (delta_for dto.type dto.quantity item.quantity)) [
      | inr (e, refused) ↦ rw (there, refused, move_stock) (Books-refl s)
      | inl (delta, ok_delta) ↦
          rw (there, ok_delta, move_stock)
            (write_movement-Books actor source item delta s there ok_delta)
    ]
  ]

  register_checked-Books :
      (actor : RequestingUser) (via : Option String) (s : Store)
      → Books s (register_checked id dto actor via s).1
  unfolding register_checked
  register_checked-Books actor via s =
      let source = source_of actor via in
      Books-told s (move_stock id dto actor.user_id source s).1 _
        (move_stock-Books actor.user_id source s)
        (Tells->>= (move_stock id dto actor.user_id source)
          (tell_of_movement actor (min_stock_of id s)) s
          (tell_of_movement-OnlyTells actor (min_stock_of id s)))

  -- Registering an entry, a consumption or a count keeps the books, however it ends: the stock of
  -- every item moves by exactly what the log says, and no stock becomes negative. The quantity of
  -- the request is not negative, as its validation demands.
  pub register_movement-Books :
      (actor : RequestingUser) (via : Option String) (s : Store)
      → Books s (register_movement id dto actor via s).1
  unfolding register_movement
  register_movement-Books actor via s = elim (Result-cases (assert_may_register id dto actor s)) [
    | inr (e, refused) ↦ rw (refused, register_movement, ◌>>=◌) (Books-refl s)
    | inl (_, may) ↦ rw (may, register_movement, ◌>>=◌) (register_checked-Books actor via s)
  ]
