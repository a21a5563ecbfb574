-- ===== src/Portal/Service.antt =====
-- What writes: the links of Reception, and what the client does through one
-- (src/client-portal/client-portal.service.ts).
use backend_emd.Prelude.{
  ℕ, ◌+◌, nat_eq, string_eq, ◌==◌, is_some, Bool, true, false, not, ◌&&◌, ◌||◌, Option, none, some,
  [], ◌∷◌, ◌++◌, String, if◌then◌else◌,
}
use backend_emd.Prelude.Table.{Table, row, put, drop_rows}
use backend_emd.Http.{
  not_found, conflict, Action, ◌>>=◌, ◌>>◌, gets, modify, check, throw_if, or_throw,
}
use backend_emd.Store.{Order, ClientResponse, ResponseStatus, Store}
use backend_emd.Notification.{create_notification}
use backend_emd.Supply.Sheet.{next_key}
use backend_emd.Task.Sync.{status_name_terminado, status_name_entregado}
use backend_emd.Orders.Rounds.{status_name_of, reception_owner_id_of}
use backend_emd.Portal.{Link, Portal, status_name, find_order_by_token, response_of}

abbrev pub is_pending : ClientResponse → Bool
is_pending r = elim r.status [ ResponseStatus.pendiente ↦ true | _ ↦ false ]

abbrev pub replaced : ℕ → ClientResponse → ClientResponse
replaced order r =
    if r.order == order && is_pending r then record r { status = ResponseStatus.reemplazada } else r

-- An answer that waits gives way to the new one.
unfoldable pub replace_responses : ℕ → Table ClientResponse → Table ClientResponse
replace_responses order [] = []
replace_responses order ((k, r) ∷ t) = (k, replaced order r) ∷ replace_responses order t

-- The transaction of `respond`.
unfoldable pub write_response : ClientResponse → Store → Store
unfolding replace_responses next_key
write_response r s = record s {
  responses = replace_responses r.order s.responses ++ (next_key s.responses, r) ∷ [];
}

-- To whoever attends the order; a message that fails is only logged.
unfoldable pub notify_reception : ℕ → Store → Store
unfolding create_notification
notify_reception order s = elim (row order s.orders) [
  | none ↦ s
  | some o ↦
      if reception_owner_id_of o == 0
      then s
      else (create_notification (reception_owner_id_of o) "client_portal_response" (some order) s).1
]

abbrev pub assert_order_exists : ℕ → Action Portal Order
assert_order_exists order p = or_throw (row order p.store.orders) not_found p

unfoldable pub revoke_link : ℕ → Action Portal (Unit {0})
revoke_link order = do
  assert_order_exists order
  modify (λ p. record p {
    links = drop_rows (λ k _. k == order) p.links;
    subscriptions = drop_rows (λ _ o. o == order) p.subscriptions;
  })

-- Reception does not apply what the client answered.
unfoldable pub discard_response : ℕ → ℕ → ℕ → Action Portal (Unit {0})
discard_response order id user = do
  found ← gets (λ p. row id p.store.responses)
  r ← or_throw found conflict
  throw_if (not (r.order == order && is_pending r)) conflict
  modify (λ p. record p {
    store = record p.store {
      responses =
          put id (record r { status = ResponseStatus.descartada; resolved_by = some user })
            p.store.responses;
    };
  })

module _ (lower : String → String) where
  abbrev pub ready_notified_at_for : String → ℕ → Option ℕ
  ready_notified_at_for name now =
      if name == status_name_terminado || name == status_name_entregado then some now else none

  abbrev pub new_link : String → ℕ → ℕ → Order → Store → Link
  new_link token user now o s = record {
    token = token;
    created_by = some user;
    created_at = now;
    last_viewed_at = none;
    view_count = 0;
    ready_notified_at = ready_notified_at_for (status_name lower o s) now;
  }

  abbrev pub write_link : ℕ → Link → Portal → Portal
  write_link order l p = record p { links = put order l p.links }

  -- The link is made once.
  unfoldable pub ensure_link : ℕ → ℕ → String → ℕ → Action Portal (Unit {0})
  unfolding status_name_of
  ensure_link order user token now = do
    o ← assert_order_exists order
    modify (λ p.
        if is_some (row order p.links)
        then p
        else write_link order (new_link token user now o p.store) p)

  -- What the new token leaves of a link that is there.
  abbrev pub renewed : String → ℕ → ℕ → Link → Link
  renewed token user now l = record l {
    token = token;
    created_by = some user;
    created_at = now;
    last_viewed_at = none;
    view_count = 0;
  }

  -- Whoever had the old link gets no more messages.
  abbrev pub renew : ℕ → ℕ → String → ℕ → Order → Portal → Portal
  renew order user token now o p =
      write_link order
        (elim (row order p.links) [
          | none ↦ new_link token user now o p.store
          | some l ↦ renewed token user now l
        ])
        (record p { subscriptions = drop_rows (λ _ x. x == order) p.subscriptions })

  unfoldable pub regenerate_link : ℕ → ℕ → String → ℕ → Action Portal (Unit {0})
  unfolding status_name_of
  regenerate_link order user token now = do
    o ← assert_order_exists order
    modify (renew order user token now o)

  abbrev pub record_response : ClientResponse → Portal → Portal
  record_response r p = record p { store = notify_reception r.order (write_response r p.store) }

  unfoldable pub respond : String → Bool → Option String → ℕ → Action Portal (Unit {0})
  unfolding response_of write_response notify_reception
  respond token approves comment now = do
    verdict ← gets (response_of lower token approves comment now)
    r ← check verdict
    modify (record_response r)

  abbrev pub viewed : ℕ → Link → Link
  viewed now l = record l { last_viewed_at = some now; view_count = l.view_count + 1 }

  -- The visit is counted.
  unfoldable pub get_portal : String → ℕ → Action Portal (Unit {0})
  unfolding find_order_by_token
  get_portal token now = do
    verdict ← gets (find_order_by_token lower token now)
    found ← check verdict
    link ← gets (λ p. row found.0 p.links)
    l ← or_throw link not_found
    modify (write_link found.0 (viewed now l))
