-- ===== src/Orders/Rounds.antt =====
-- The rounds of design of src/order/order.service.ts: `resolveRevisionFiles`,
-- `resolveStatusIdByName`, `getDesignRevisionOrThrow`, `assertRevisionAwaitingResponse`
-- and `createDesignRevision`. A file is its name; its
-- upload and what undoes it are left out, and the verdict on sizes and contents is a parameter. The
-- texts of what a client said are of at least one character, as the request's validation demands.
pub mod Awaiting
pub mod Opens
use backend_emd.Prelude.{
  is_empty, ℕ, ◌+◌, nat_eq, string_eq, option_eq, ◌==◌, any, ltb, Bool, true, false, not, ◌&&◌,
  ◌||◌, Option, none, some, List, [], ◌∷◌, ◌++◌, String, if◌then◌else◌, is_some, or_else,
}
use backend_emd.Prelude.Table.{Table, row, update_row}
use backend_emd.Http.{
  Result, ok, err, bad_request, not_found, conflict, Action, ◌>>=◌, ◌>>◌, pure, gets, modify,
  throw_if, check, guard, then_check,
}
use backend_emd.Area.Access.{RequestingUser, design_area}
use backend_emd.Store.{Order, DesignRevision, ClientResponse, ResponseStatus, AuditEntry, Store}
use backend_emd.Notification.{create_notification, create_notification_for_users, user_ids_for_area}
use backend_emd.Supply.Sheet.{next_key}
use backend_emd.Task.Sync.{id_for}
use backend_emd.Orders.Access.{assert_order_access}
use backend_emd.Orders.Take.{audit_entry, write_order}

abbrev pub status_name_esperando_autorizacion : String
status_name_esperando_autorizacion = "esperando autorización"

abbrev pub status_name_cambios_solicitados : String
status_name_cambios_solicitados = "cambios solicitados"

-- Who attends the order today, or else who created it.
abbrev pub reception_owner_id_of : Order → ℕ
reception_owner_id_of order = or_else order.attended_by order.user

-- Several files or one, and never both.
unfoldable pub resolve_revision_files : List String → Option String → Result (List String)
resolve_revision_files many single =
    if not (is_empty many) && is_some single
    then err bad_request
    else if not (is_empty many)
    then ok many
    else elim single [ none ↦ ok [] | some file ↦ ok (file ∷ []) ]

-- `findFirst({ orderBy: { round: 'desc' } })`, and 0 if there is none.
unfoldable pub last_round : ℕ → Table DesignRevision → ℕ
last_round order [] = 0
last_round order ((k, r) ∷ t) =
    let rest = last_round order t in if r.order == order && ltb rest r.round then r.round else rest

unfoldable pub has_newer : ℕ → ℕ → Table DesignRevision → Bool
has_newer order round [] = false
has_newer order round ((k, r) ∷ t) =
    (r.order == order && ltb round r.round) || has_newer order round t

-- The name under which the status is stored.
unfoldable pub status_name_of : ℕ → List (String × ℕ) → Option String
status_name_of id [] = none
status_name_of id ((name, j) ∷ t) =
    let rest = status_name_of id t in if j == id then some name else rest

unfoldable pub get_design_revision_or_throw : ℕ → ℕ → Action Store DesignRevision
get_design_revision_or_throw order id s = elim (row id s.revisions) [
  | none ↦ (err not_found, s)
  | some r ↦ if r.order == order then (ok r, s) else (err not_found, s)
]

-- `revision.approved || revision.feedbackText`; an empty text is none.
unfoldable pub is_answered : DesignRevision → Bool
is_answered r = r.approved || not (or_else r.feedback_text "" == "")

abbrev pub settle_response : ResponseStatus → ℕ → ClientResponse → ClientResponse
settle_response ResponseStatus.pendiente user r = record r {
  status = ResponseStatus.aplicada;
  resolved_by = some user;
}
settle_response _ user r = r

-- What waits for Reception to apply it is applied.
unfoldable pub apply_responses : ℕ → ℕ → Table ClientResponse → Table ClientResponse
apply_responses order user [] = []
apply_responses order user ((k, r) ∷ t) =
    (k, (if r.order == order then settle_response r.status user r else r))
    ∷ apply_responses order user t

-- Who asks is not told of what they did.
unfoldable pub tell_other : ℕ → ℕ → String → ℕ → Action Store (Unit {0})
tell_other owner user type order =
    if owner == user then pure tt else create_notification owner type (some order)

module _ (lower : String → String) where
  -- The order waits for what the client says.
  unfoldable pub is_awaiting : ℕ → Store → Bool
  unfolding status_name_of
  is_awaiting order s = elim (row order s.orders) [
    | none ↦ false
    | some o ↦ elim (status_name_of o.status s.statuses) [
      | none ↦ false
      | some name ↦ lower name == status_name_esperando_autorizacion
    ]
  ]

  unfoldable pub assert_revision_awaiting_response : ℕ → DesignRevision → Store → Result (Unit {0})
  unfolding is_awaiting is_answered has_newer
  assert_revision_awaiting_response order r s = then_check (guard (is_answered r) conflict) (
      then_check (guard (has_newer order r.round s.revisions) conflict)
        (guard (not (is_awaiting order s)) conflict))

  abbrev pub judged : ℕ → DesignRevision → Action Store DesignRevision
  judged order r = do
    verdict ← gets (assert_revision_awaiting_response order r)
    check verdict
    pure r

  -- The round, if it may be answered.
  unfoldable pub revision_awaiting : ℕ → ℕ → Action Store DesignRevision
  unfolding get_design_revision_or_throw assert_revision_awaiting_response
  revision_awaiting order id = get_design_revision_or_throw order id >>= judged order

  -- The guards that both answers share.
  unfoldable pub revision_to_answer : ℕ → ℕ → RequestingUser → Action Store DesignRevision
  unfolding assert_order_access revision_awaiting
  revision_to_answer order id user =
      assert_order_access order (some user) >> revision_awaiting order id

abbrev pub new_revision : ℕ → ℕ → ℕ → List String → DesignRevision
new_revision order round user files = record {
  order = order;
  round = round;
  sent_by = some user;
  files = files;
  feedback_text = none;
  feedback_files = [];
  approved = false;
}

-- The transaction of `createDesignRevision`.
unfoldable pub write_revision : ℕ → ℕ → ℕ → ℕ → List String → Store → Store
unfolding next_key update_row
write_revision order user status round files s = record s {
  revisions = s.revisions ++ (next_key s.revisions, new_revision order round user files) ∷ [];
  orders = update_row order (λ o. record o { status = status; archived_at = none }) s.orders;
  audit = s.audit ++ audit_entry order "design_montage_sent" user ∷ [];
}

-- What follows the guards: the transaction, and the message to Reception.
unfoldable pub send_revision : ℕ → ℕ → List String → Order → Action Store (Unit {0})
unfolding last_round id_for write_revision tell_other
send_revision order user files o = do
  last ← gets (λ s. last_round order s.revisions)
  status ← id_for status_name_esperando_autorizacion
  modify (write_revision order user status (last + 1) files)
  tell_other (reception_owner_id_of o) user "design_montage_sent" order

module _ (assert_files_valid : List String → Result (Unit {0})) where
  -- The files of a round: at least one, and all of them in order.
  unfoldable pub montage_files : List String → Option String → Result (List String)
  unfolding resolve_revision_files
  montage_files many single = elim (resolve_revision_files many single) [
    | err e ↦ err e
    | ok files ↦
        if is_empty files
        then err bad_request
        else elim (assert_files_valid files) [ err e ↦ err e | ok _ ↦ ok files ]
  ]

  unfoldable pub create_design_revision :
      ℕ → List String → Option String → RequestingUser → Action Store (Unit {0})
  unfolding assert_order_access montage_files send_revision
  create_design_revision order many single user = do
    o ← assert_order_access order (some user)
    files ← check (montage_files many single)
    send_revision order user.user_id files o
