-- ===== src/Portal/Pending.antt =====
-- An order has one answer of its client that waits, at most.
use backend_emd.Prelude.{
  ℕ, ◌≡◌, ◌⊎◌, refl, sym, ap, ◌∙◌, subst, inl, inr, arith, nat_eq, ◌==◌, ◌&&◌, not, Bool, true,
  false, Option, none, some, [], ◌∷◌, ◌++◌, String, Bool-cases, Option-cases, some_unique,
  false-or-true, if◌then◌else◌,
}
use backend_emd.Prelude.Table.{Table, row, put, row-put_self, row-put_ne}
use backend_emd.Http.{Result-cases, Action}
use backend_emd.Store.{ClientResponse, ResponseStatus, Store}
use backend_emd.Supply.Sheet.{next_key}
use backend_emd.Supply.Sheet.Keys.{row-next_key, row-append}
use backend_emd.Portal.{Portal, response_of}
use backend_emd.Portal.Service.{
  is_pending, replaced, replace_responses, write_response, record_response, respond,
  discard_response, ensure_link, regenerate_link, revoke_link, get_portal,
}
use backend_emd.Portal.Frame.{notify_reception-Tells}

-- No two answers that wait are of one order.
abbrev pub HasOnePending : Table ClientResponse → Type 0
HasOnePending t =
    (j k : ℕ) (a b : ClientResponse)
    → row j t ≡ some a
    → row k t ≡ some b
    → a.order ≡ b.order
    → is_pending a ≡ true
    → is_pending b ≡ true
    → j ≡ k

module _ (order : ℕ) where
  row-replace_responses-none :
      (k : ℕ) (t : Table ClientResponse) → row k t ≡ none → row k (replace_responses order t) ≡ none
  unfolding replace_responses
  row-replace_responses-none k [] h = refl
  row-replace_responses-none k ((j, r) ∷ t) h = ground (arith, row-replace_responses-none k t)

  row-replace_responses :
      (k : ℕ) (a : ClientResponse) (t : Table ClientResponse)
      → row k (replace_responses order t) ≡ some a
      → (b : ClientResponse) × (row k t ≡ some b) × (a ≡ replaced order b)
  unfolding replace_responses
  row-replace_responses k a [] h = cc
  row-replace_responses k a ((j, r) ∷ t) h = elim (Bool-cases (j == k)) [
    | inl here ↦ (r, rw here refl, cc (rw here at h))
    | inr later ↦
        let (b, there, is) = row-replace_responses k a t (rw later at h) in (b, rw later there, is)
  ]

  -- What still waits afterwards was there, and is of another order.
  replaced-pending :
      (b : ClientResponse)
      → is_pending (replaced order b) ≡ true
      → ((b.order == order) ≡ false) × (replaced order b ≡ b)
  replaced-pending b h = elim (Bool-cases (b.order == order)) [
    | inr other ↦ (other, rw other refl)
    | inl own ↦ elim (Bool-cases (is_pending b)) [
      | inl waits ↦ absurd (differ (rw (own, waits) at h))
      | inr settled ↦ absurd (false-or-true settled (rw (own, settled) at h))
    ]
  ]
    where
      differ : false ≡ true → ⊥
      differ e = cc

  -- Everything that still waits is the new answer, or was there for another order.
  written :
      (k : ℕ) (r a : ClientResponse) (t : Table ClientResponse)
      → row k (replace_responses order t ++ (next_key t, r) ∷ []) ≡ some a
      → is_pending a ≡ true
      → ((k ≡ next_key t) × (a ≡ r)) ⊎ ((row k t ≡ some a) × ((a.order == order) ≡ false))
  written k r a t h waits = elim (Bool-cases (next_key t == k)) [
    | inl new ↦ inl (ground arith, some_unique h (at_new new))
    | inr old ↦
        let (b, there, same) = row-replace_responses k a t (sym (at_old old) ∙ h) in
        let (other, kept) = replaced-pending b (subst (λ x. is_pending x ≡ true) same waits) in
        inr (
          there ∙ ap some (sym (same ∙ kept)),
          subst (λ (x : ClientResponse). (x.order == order) ≡ false) (sym (same ∙ kept)) other,
        )
  ]
    where
      is :
          row k (replace_responses order t ++ (next_key t, r) ∷ [])
          ≡ (if next_key t == k then some r else row k (replace_responses order t))
      is =
          row-append k (next_key t) r (replace_responses order t)
            (row-replace_responses-none (next_key t) t (row-next_key t))

      at_new :
          (next_key t == k) ≡ true
          → row k (replace_responses order t ++ (next_key t, r) ∷ []) ≡ some r
      at_new e = is ∙ rw e refl

      at_old :
          (next_key t == k) ≡ false
          → row k (replace_responses order t ++ (next_key t, r) ∷ [])
            ≡ row k (replace_responses order t)
      at_old e = is ∙ rw e refl

apart : (a b r : ClientResponse) → a.order ≡ b.order → a ≡ r → (b.order == r.order) ≡ false → ⊥
apart a b r same is other =
    false-or-true other
      ((nat_eq.decides b.order r.order).1 (sym same ∙ ap (λ (x : ClientResponse). x.order) is))

write_response-HasOnePending :
    (r : ClientResponse) (s : Store)
    → HasOnePending s.responses
    → HasOnePending (write_response r s).responses
unfolding write_response
write_response-HasOnePending r s one j k a b ja kb same wa wb =
    elim (written r.order j r a s.responses ja wa) [
      | inl (j_new, a_is) ↦ elim (written r.order k r b s.responses kb wb) [
        | inl (k_new, b_is) ↦ j_new ∙ sym k_new
        | inr (old, other) ↦ absurd (apart a b r same a_is other)
      ]
      | inr (was, differs) ↦ elim (written r.order k r b s.responses kb wb) [
        | inl (k_new, b_is) ↦ absurd (apart b a r (sym same) b_is differs)
        | inr (old, other) ↦ one j k a b was old same wa wb
      ]
    ]

record_response-HasOnePending :
    (lower : String → String) (r : ClientResponse) (p : Portal)
    → HasOnePending p.store.responses
    → HasOnePending (record_response lower r p).store.responses
record_response-HasOnePending lower r p one =
    subst HasOnePending
      (sym (
        ap {A = Store} (λ s. s.responses)
          (notify_reception-Tells r.order (write_response r p.store))))
      (write_response-HasOnePending r p.store one)

-- A row that waits after an answer was settled is another one, and was there.
discard_HasOnePending :
    (id : ℕ) (new : ClientResponse) (t : Table ClientResponse)
    → is_pending new ≡ false
    → HasOnePending t
    → HasOnePending (put id new t)
discard_HasOnePending id new t settled one j k a b ja kb same wa wb =
    one j k a b (was j a ja wa) (was k b kb wb) same wa wb
  where
    was :
        (j : ℕ) (a : ClientResponse)
        → row j (put id new t) ≡ some a
        → is_pending a ≡ true
        → row j t ≡ some a
    was j a h waits = elim (Bool-cases (j == id)) [
      | inr other ↦ sym (row-put_ne j id new t (ground arith)) ∙ h
      | inl here ↦
          let at : j ≡ id = ground arith in
          let is : new ≡ a =
            some_unique (ap (λ x. row x (put id new t)) at ∙ row-put_self id new t) h in
          absurd (false-or-true settled (subst (λ x. is_pending x ≡ true) (sym is) waits))
    ]

discard_response-HasOnePending :
    (order id user : ℕ) (p : Portal)
    → HasOnePending p.store.responses
    → HasOnePending (discard_response order id user p).1.store.responses
unfolding discard_response
discard_response-HasOnePending order id user p one =
    elim (Option-cases (row id p.store.responses)) [
      | inl missing ↦ rw (missing, discard_response) one
      | inr (r, there) ↦ elim (Bool-cases (not (r.order == order && is_pending r))) [
        | inl settled ↦ rw (there, settled, discard_response) one
        | inr waits ↦
            rw (there, waits, discard_response)
              (discard_HasOnePending id
                (record r { status = ResponseStatus.descartada; resolved_by = some user })
                p.store.responses refl one)
      ]
    ]

-- One operation of the link, by Reception or by the client, with its arguments.
pub data PortalRequest : Type 0 where
  ensures : ℕ → ℕ → String → ℕ → PortalRequest
  regenerates : ℕ → ℕ → String → ℕ → PortalRequest
  revokes : ℕ → PortalRequest
  discards : ℕ → ℕ → ℕ → PortalRequest
  responds : String → Bool → Option String → ℕ → PortalRequest
  views : String → ℕ → PortalRequest

module _ (lower : String → String) where
  unfoldable pub handle : PortalRequest → Action Portal (Unit {0})
  unfolding ensure_link regenerate_link revoke_link discard_response respond get_portal
  handle (ensures order user token now) = ensure_link lower order user token now
  handle (regenerates order user token now) = regenerate_link lower order user token now
  handle (revokes order) = revoke_link order
  handle (discards order id user) = discard_response order id user
  handle (responds token approves comment now) = respond lower token approves comment now
  handle (views token now) = get_portal lower token now

  respond-HasOnePending :
      (token : String) (approves : Bool) (comment : Option String) (now : ℕ) (p : Portal)
      → HasOnePending p.store.responses
      → HasOnePending (respond lower token approves comment now p).1.store.responses
  unfolding respond
  respond-HasOnePending token approves comment now p one =
      elim (Result-cases (response_of lower token approves comment now p)) [
        | inr (e, refused) ↦ rw (refused, respond) one
        | inl (r, fine) ↦ rw (fine, respond) (record_response-HasOnePending lower r p one)
      ]

  ensure_link_keeps :
      (order user : ℕ) (token : String) (now : ℕ) (p : Portal)
      → (ensure_link lower order user token now p).1.store ≡ p.store
  unfolding ensure_link
  ensure_link_keeps order user token now p = ground arith

  regenerate_link_keeps :
      (order user : ℕ) (token : String) (now : ℕ) (p : Portal)
      → (regenerate_link lower order user token now p).1.store ≡ p.store
  unfolding regenerate_link
  regenerate_link_keeps order user token now p = ground arith

  revoke_link_keeps : (order : ℕ) (p : Portal) → (revoke_link order p).1.store ≡ p.store
  unfolding revoke_link
  revoke_link_keeps order p = ground arith

  get_portal_keeps :
      (token : String) (now : ℕ) (p : Portal) → (get_portal lower token now p).1.store ≡ p.store
  unfolding get_portal
  get_portal_keeps token now p = ground arith

  -- An order has at most one answer of its client that waits for Reception, whatever is asked of the
  -- link, by whom, and however it ends, if that held before.
  pub handle-HasOnePending :
      (r : PortalRequest) (p : Portal)
      → HasOnePending p.store.responses
      → HasOnePending (handle r p).1.store.responses
  unfolding handle
  handle-HasOnePending (ensures order user token now) p one =
      subst (λ (s : Store). HasOnePending s.responses)
        (sym (ensure_link_keeps order user token now p)) one
  handle-HasOnePending (regenerates order user token now) p one =
      subst (λ (s : Store). HasOnePending s.responses)
        (sym (regenerate_link_keeps order user token now p)) one
  handle-HasOnePending (revokes order) p one =
      subst (λ (s : Store). HasOnePending s.responses) (sym (revoke_link_keeps order p)) one
  handle-HasOnePending (discards order id user) p one =
      discard_response-HasOnePending order id user p one
  handle-HasOnePending (responds token approves comment now) p one =
      respond-HasOnePending token approves comment now p one
  handle-HasOnePending (views token now) p one =
      subst (λ (s : Store). HasOnePending s.responses) (sym (get_portal_keeps token now p)) one
