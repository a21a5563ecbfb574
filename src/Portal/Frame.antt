-- ===== src/Portal/Frame.antt =====
-- What the client answers changes no order (`respond` of src/client-portal/client-portal.service.ts).
use backend_emd.Prelude.{
  ℕ, ◌≡◌, refl, sym, ap, ◌∙◌, inl, inr, nat_eq, ◌==◌, Bool, Option, some, String, Bool-cases,
  Option-cases,
}
use backend_emd.Prelude.Table.{row}
use backend_emd.Http.{Result-cases}
use backend_emd.Store.{ClientResponse, Store}
use backend_emd.Notification.Frame.{Tells, create_notification-OnlyTells}
use backend_emd.Orders.Rounds.{reception_owner_id_of}
use backend_emd.Portal.{Portal, response_of}
use backend_emd.Portal.Service.{notify_reception, write_response, record_response, respond}

pub notify_reception-Tells : (order : ℕ) (s : Store) → Tells s (notify_reception order s)
unfolding notify_reception
notify_reception-Tells order s = elim (Option-cases (row order s.orders)) [
  | inl missing ↦ rw (missing, notify_reception) refl
  | inr (o, there) ↦ elim (Bool-cases (reception_owner_id_of o == 0)) [
    | inl nobody ↦ rw (there, nobody, notify_reception) refl
    | inr somebody ↦
        rw (there, somebody, notify_reception)
          (create_notification-OnlyTells (reception_owner_id_of o) "client_portal_response"
            (some order) s)
  ]
]

-- Of the store, only the clients' answers and the messages are new.
abbrev pub OnlyAnswers : Portal → Portal → Type 0
OnlyAnswers p p' = p' ≡ record p {
  store = record p.store { responses = p'.store.responses; notices = p'.store.notices };
}

record_response-OnlyAnswers :
    (lower : String → String) (r : ClientResponse) (p : Portal)
    → OnlyAnswers p (record_response lower r p)
unfolding write_response
record_response-OnlyAnswers lower r p =
    let t = write_response r p.store in
    let told = notify_reception r.order t in
    let e : told ≡ record t { notices = told.notices } = notify_reception-Tells r.order t in
    ap {A = Store} (λ s. record p { store = s })
      (e
        ∙ ap (λ x. record p.store { notices = told.notices; responses = x })
            (sym (ap {A = Store} (λ s. s.responses) e)))

-- The client's answer changes no order: whatever the client sends, and however it ends, nothing is
-- written but the clients' answers and messages to Reception.
pub respond-OnlyAnswers :
    (lower : String → String) (token : String) (approves : Bool) (comment : Option String) (now : ℕ)
    (p : Portal)
    → OnlyAnswers p (respond lower token approves comment now p).1
unfolding respond
respond-OnlyAnswers lower token approves comment now p =
    elim (Result-cases (response_of lower token approves comment now p)) [
      | inr (e, refused) ↦ rw (refused, respond) refl
      | inl (r, fine) ↦ rw (fine, respond) (record_response-OnlyAnswers lower r p)
    ]
