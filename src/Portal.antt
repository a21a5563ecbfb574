-- ===== src/Portal.antt =====
-- The link by which a client sees an order and answers a design:
-- src/client-portal/client-portal.service.ts, and `readyNotifiedAtFor` of client-ready-notice.service.ts.
-- What is shown to the client is left out but for the stage, and every round that is stored has been
-- sent. A token is an argument of the operation that makes one, and so is the clock.
pub mod Service
pub mod Frame
pub mod Pending
pub mod Links
mod Tests
use backend_emd.Prelude.{
  ℕ, ◌+◌, ◌-◌, ◌*◌, nat_eq, string_eq, ◌==◌, all, ltb, is_empty, is_some, or_else, is_empty_text,
  trim, text_length, Bool, true, false, not, ◌&&◌, ◌||◌, Option, none, some, List, [], ◌∷◌, ◌++◌,
  String, if◌then◌else◌,
}
use backend_emd.Prelude.Table.{Table, row, put, drop_rows}
use backend_emd.Http.{
  Result, ok, err, bad_request, not_found, conflict, gone, Action, ◌>>=◌, ◌>>◌, pure, gets, modify,
  check, throw_if, or_throw,
}
use backend_emd.Store.{Order, Task, DesignRevision, ClientResponse, ResponseStatus, Store}
use backend_emd.Notification.{create_notification}
use backend_emd.Supply.Move.{is_terminado}
use backend_emd.Supply.Sheet.{next_key}
use backend_emd.Task.Sync.{status_name_terminado, status_name_entregado, status_name_cancelado}
use backend_emd.Orders.Rounds.{
  status_name_of, is_answered, reception_owner_id_of, status_name_esperando_autorizacion,
  status_name_cambios_solicitados,
}

-- `OrderShareLink`
pub record Link : Type 0 where
  pub token : String
  pub created_by : Option ℕ
  pub created_at : ℕ
  pub last_viewed_at : Option ℕ
  pub view_count : ℕ
  pub ready_notified_at : Option ℕ

-- The links by their orders, of which each has one at most; the clients' subscriptions, with the
-- order of their link; and when a delivered order was delivered, by its history.
pub record Portal : Type 0 where
  pub links : Table Link
  pub subscriptions : Table ℕ
  pub deliveries : Table ℕ
  pub store : Store

pub data PortalStageKey : Type 0 where
  diseno autorizacion produccion listo entregado cancelado : PortalStageKey

abbrev pub status_name_en_diseno : String
status_name_en_diseno = "en diseño"

-- 30 days in milliseconds
abbrev pub link_days_after_delivery : ℕ
link_days_after_delivery = 30 * (24 * (60 * (60 * 1000)))

unfoldable pub stage_of : String → List Task → PortalStageKey
stage_of name tasks =
    if name == status_name_cancelado
    then cancelado
    else if name == status_name_entregado
    then entregado
    else if name == status_name_en_diseno || name == status_name_cambios_solicitados
    then diseno
    else if name == status_name_esperando_autorizacion
    then autorizacion
    else if (if is_empty tasks
        then name == status_name_terminado
        else all (λ (t : Task). is_terminado t.status) tasks)
    then listo
    else produccion

-- `findUnique({ where: { token } })`: the order of the link.
unfoldable pub link_with : String → Table Link → Option ℕ
link_with token [] = none
link_with token ((order, l) ∷ t) =
    let rest = link_with token t in if l.token == token then some order else rest

abbrev pub is_expired : ℕ → Option ℕ → Bool
is_expired now none = false
is_expired now (some delivered) = ltb link_days_after_delivery (now - delivered)

-- `findFirst({ orderBy: { round: 'desc' } })`
unfoldable pub current_revision : ℕ → Table DesignRevision → Option (ℕ × DesignRevision)
current_revision order [] = none
current_revision order ((k, r) ∷ t) =
    let rest = current_revision order t in
    if r.order == order
    then elim rest [
      | none ↦ some (k, r)
      | some (j, x) ↦ if ltb r.round x.round then some (j, x) else some (k, r)
    ]
    else rest

-- `dto.comment?.trim() || null`, whether there is one
abbrev pub has_comment : Option String → Bool
has_comment none = false
has_comment (some s) = not (is_empty_text (trim s))

module _ (lower : String → String) where
  abbrev pub status_name : Order → Store → String
  status_name o s = lower (or_else (status_name_of o.status s.statuses) "")

  -- The order of a link, and the name of its status in lower case.
  unfoldable pub find_order_by_token : String → ℕ → Portal → Result (ℕ × Order × String)
  unfolding link_with status_name_of
  find_order_by_token token now p =
      if ltb (text_length token) 20 || ltb 100 (text_length token)
      then err not_found
      else elim (link_with token p.links) [
        | none ↦ err not_found
        | some order ↦ elim (row order p.store.orders) [
          | none ↦ err not_found
          | some o ↦
              if status_name o p.store == status_name_entregado
                && is_expired now (row order p.deliveries)
              then err gone
              else ok (order, o, status_name o p.store)
        ]
      ]

  -- What is recorded, if the design waits for an answer.
  unfoldable pub response_to : Bool → Option String → ℕ → String → Portal → Result ClientResponse
  unfolding current_revision is_answered
  response_to approves comment order name p = elim (current_revision order p.store.revisions) [
    | none ↦ err conflict
    | some (id, r) ↦
        if not (name == status_name_esperando_autorizacion) || is_answered r
        then err conflict
        else if not approves && not (has_comment comment)
        then err bad_request
        else ok (record {
          order = order;
          revision = id;
          approves = approves;
          status = ResponseStatus.pendiente;
          resolved_by = none;
        })
  ]

  unfoldable pub response_of : String → Bool → Option String → ℕ → Portal → Result ClientResponse
  unfolding find_order_by_token response_to
  response_of token approves comment now p = elim (find_order_by_token token now p) [
    | err e ↦ err e
    | ok (order, o, name) ↦ response_to approves comment order name p
  ]
