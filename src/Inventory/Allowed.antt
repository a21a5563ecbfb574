-- ===== src/Inventory/Allowed.antt =====
-- Which movements of the inventory are let through.
use backend_emd.Prelude.{
  ℕ, ◌≡◌, ◌⊎◌, inl, inr, refl, ◌∙◌, sym, subst, string_eq, contains, true, false, not, ◌||◌, Option,
  some, arith, Option-cases, Bool-cases, String, false-or-true, some_unique,
}
use backend_emd.Prelude.Int.{ℤ, pos, ◌+ℤ◌, leb_ℤ}
use backend_emd.Prelude.Table.{row}
use backend_emd.Http.{
  HttpError, Result, ok, err, bad_request, Result-cases, ◌>>=◌, >>=-eq, >>=-eq_err,
}
use backend_emd.Area.Access.{RequestingUser, is_full_visibility_role}
use backend_emd.Store.{Item, Store}
use backend_emd.Inventory.{
  MovementDraft, Balance, areas_for, is_ajuste, lacks_order, assert_may_register, delta_for,
  write_movement, move_stock, source_of, min_stock_of, tell_of_movement, register_checked,
  register_movement,
}
use backend_emd.Inventory.Effect.{
  is_excess, Registers, delta_for-excess, delta_for-covered, Registers-told,
  write_movement-Registers,
}
use backend_emd.Inventory.Movements.{tell_of_movement-OnlyTells, tell_of_movement-ok}

-- A count is for the managers; the item is there and in a department of the user; an entry or a
-- consumption is of more than nothing; and the order that it names exists.
pub record PassesChecks (id : ℕ) (dto : MovementDraft) (actor : RequestingUser) (s : Store)
    : Type 0 where
  pub item : Item
  pub found : row id s.items ≡ some item
  pub by_manager : (is_full_visibility_role (some actor.roles) || not (is_ajuste dto.type)) ≡ true
  pub own_area : contains (areas_for actor s) item.area ≡ true
  pub positive : (is_ajuste dto.type || not (leb_ℤ dto.quantity (pos 0))) ≡ true
  pub for_order : lacks_order dto.order s ≡ false

-- The checks are passed, and a consumption is covered by the stock.
pub record MayRegister (id : ℕ) (dto : MovementDraft) (actor : RequestingUser) (s : Store)
    : Type 0 where
  pub checked : PassesChecks id dto actor s
  pub covered : is_excess dto.type dto.quantity checked.item.quantity ≡ false

module _ (id : ℕ) (dto : MovementDraft) (actor : RequestingUser) (s : Store) where
  allowed : PassesChecks id dto actor s → assert_may_register id dto actor s ≡ ok tt
  unfolding assert_may_register
  allowed m = ground (arith, m.found, m.by_manager, m.own_area, m.positive, m.for_order)

  allowed-inv : assert_may_register id dto actor s ≡ ok tt → PassesChecks id dto actor s
  unfolding assert_may_register
  allowed-inv h = elim (Option-cases (row id s.items)) [
    | inl missing ↦ absurd (ground (arith, missing))
    | inr (item, found) ↦ record {
      item = item;
      found = found;
      by_manager = ground (arith, found);
      own_area = ground (arith, found);
      positive = ground (arith, found);
      for_order = ground (arith, found);
    }
  ]

  moves :
      (via : Option String) (item : Item) (delta : ℤ)
      → row id s.items ≡ some item
      → delta_for dto.type dto.quantity item.quantity ≡ ok delta
      → move_stock id dto actor.user_id (source_of actor via) s ≡ (
        ok (record { before = item.quantity; after = item.quantity +ℤ delta }),
        write_movement id dto actor.user_id (source_of actor via) item delta s,
      )
  unfolding move_stock
  moves via item delta there fine = rw (there, fine, move_stock) refl

  refuses :
      (via : Option String) (item : Item)
      → row id s.items ≡ some item
      → is_excess dto.type dto.quantity item.quantity ≡ true
      → move_stock id dto actor.user_id (source_of actor via) s ≡ (err bad_request, s)
  unfolding move_stock
  refuses via item there excess =
      rw (there, delta_for-excess dto.type dto.quantity item.quantity excess, move_stock) refl

  register_checked-covered :
      (via : Option String) (item : Item)
      → row id s.items ≡ some item
      → is_excess dto.type dto.quantity item.quantity ≡ false
      → let (r, s') = register_checked id dto actor via s in
        (r ≡ ok tt) × Registers id dto actor.user_id item s s'
  unfolding register_checked
  register_checked-covered via item there covered =
      let (delta, fine, new) = delta_for-covered dto.type dto.quantity item.quantity covered in
      let b : Balance = record { before = item.quantity; after = item.quantity +ℤ delta } in
      let t = write_movement id dto actor.user_id (source_of actor via) item delta s in
      let tell = tell_of_movement actor (min_stock_of id s) in
      rw
        (>>=-eq (move_stock id dto actor.user_id (source_of actor via)) tell s
          (moves via item delta there fine))
        (
          tell_of_movement-ok actor (min_stock_of id s) b t,
          Registers-told id dto actor s item t _
              (tell_of_movement-OnlyTells actor (min_stock_of id s) b t)
              (write_movement-Registers id dto actor s (source_of actor via) item delta new),
        )

  register_checked-excess :
      (via : Option String) (item : Item)
      → row id s.items ≡ some item
      → is_excess dto.type dto.quantity item.quantity ≡ true
      → register_checked id dto actor via s ≡ (err bad_request, s)
  unfolding register_checked
  register_checked-excess via item there excess =
      >>=-eq_err (move_stock id dto actor.user_id (source_of actor via))
        (tell_of_movement actor (min_stock_of id s)) s (refuses via item there excess)

  pub register_movement_cases :
      (via : Option String)
      → ((m : MayRegister id dto actor s) × ((register_movement id dto actor via s).0 ≡ ok tt)
          × Registers id dto actor.user_id m.checked.item s
              (register_movement id dto actor via s).1)
        ⊎ (¬ (MayRegister id dto actor s)
            × ((e : HttpError) × (register_movement id dto actor via s ≡ (err e, s))))
  unfolding register_movement
  register_movement_cases via = elim (Result-cases (assert_may_register id dto actor s)) [
    | inr (e, refused) ↦ inr (
      (λ m. differ e (sym refused ∙ allowed m.checked)),
      (e, rw (refused, register_movement, ◌>>=◌) refl),
    )
    | inl (_, may) ↦
        let c = allowed-inv may in
        let same : register_movement id dto actor via s ≡ register_checked id dto actor via s =
          rw (may, register_movement, ◌>>=◌) refl in
        elim (Bool-cases (is_excess dto.type dto.quantity c.item.quantity)) [
          | inl excess ↦ inr (
            (λ m. false-or-true m.covered (
                subst (λ (x : Item). is_excess dto.type dto.quantity x.quantity ≡ true)
                  (some_unique c.found m.checked.found) excess)),
            (bad_request, same ∙ register_checked-excess via c.item c.found excess),
          )
          | inr covered ↦
              let (done, registers) = register_checked-covered via c.item c.found covered in
              inl (record { checked = c; covered = covered }, rw same done, rw same registers)
        ]
  ]
    where
      differ : (e : HttpError) → ◌≡◌ {A = Result (Unit {0})} (err e) (ok tt) → ⊥
      differ e h = ground arith
