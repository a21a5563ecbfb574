-- ===== src/Quotes/Service/Keeps.antt =====
-- Every operation on quotes leaves well-formed quotes.
use backend_emd.Prelude.{
  ℕ, inl, inr, nat_eq, ◌==◌, All, All-append, not, is_some, ◌||◌, is_empty, ltb, length, contains,
  some, List, [], ◌∷◌, ◌++◌, Bool-cases, Option-cases,
}
use backend_emd.Prelude.Table.{Table, row}
use backend_emd.Prelude.Selection.{AllRows, AllRows-row, AllRows-put, AllRows-drop_rows}
use backend_emd.Http.{Result-cases, Action}
use backend_emd.Supply.Sheet.{next_key}
use backend_emd.Quotes.{is_accepted, max_quote_bulk_items}
use backend_emd.Quotes.Prepare.{Quote, QuoteDraft, Desk, prepare_create, updated}
use backend_emd.Quotes.Prepare.Fields.{IsValid, IsTidy}
use backend_emd.Quotes.Prepare.Valid.{prepare_create-IsValid, updated-IsValid}
use backend_emd.Quotes.Service.{
  insert_quotes, write_prepared, create, create_bulk, update, linked_to, is_linked_elsewhere,
  link_order, remove,
}

-- One operation of the service, with its arguments.
pub data QuoteRequest : Type 0 where
  creates : QuoteDraft → ℕ → QuoteRequest
  creates_many : List QuoteDraft → ℕ → QuoteRequest
  updates : ℕ → QuoteDraft → QuoteRequest
  links : ℕ → ℕ → QuoteRequest
  removes : ℕ → QuoteRequest

unfoldable pub run : ℕ → QuoteRequest → Action Desk (Unit {0})
unfolding create create_bulk update link_order remove
run now (creates d user) = create now d user
run now (creates_many drafts user) = create_bulk now drafts user
run now (updates id d) = update now id d
run now (links id order) = link_order id order
run now (removes id) = remove id

insert_quotes-IsValid :
    (qs : List Quote) (t : Table Quote)
    → All IsValid qs
    → AllRows IsValid t
    → AllRows IsValid (insert_quotes qs t)
unfolding insert_quotes
insert_quotes-IsValid [] t h k = k
insert_quotes-IsValid (q ∷ qs) t (p, h) k =
    insert_quotes-IsValid qs (t ++ (next_key t, q) ∷ []) h
      (All-append (λ r. IsValid r.1) t ((next_key t, q) ∷ []) k (p, tt))

link_order-IsTidy : (id order : ℕ) (s : Desk) → IsTidy s → IsTidy (link_order id order s).1
unfolding link_order
link_order-IsTidy id order s tidy = elim (Option-cases (row id s.quotes)) [
  | inl missing ↦ rw (missing, link_order) tidy
  | inr (q, there) ↦ elim (Bool-cases (not (is_accepted q.status))) [
    | inl refused ↦ rw (there, refused, link_order) tidy
    | inr accepted ↦ elim (Bool-cases (order == 0)) [
      | inl zero ↦ rw (there, accepted, zero, link_order) tidy
      | inr positive ↦ elim (Bool-cases (not (contains s.orders order))) [
        | inl unknown ↦ rw (there, accepted, positive, unknown, link_order) tidy
        | inr known ↦ elim (Bool-cases (is_linked_elsewhere id (linked_to order s.quotes))) [
          | inl linked ↦ rw (there, accepted, positive, known, linked, link_order) tidy
          | inr free ↦
              let v = AllRows-row IsValid id q s.quotes tidy there in
              rw (there, accepted, positive, known, free, link_order)
                (AllRows-put IsValid id (record q { order = some order }) s.quotes
                  (record {
                    placed = v.placed;
                    sent = v.sent;
                    described = v.described;
                    commented = v.commented;
                    named = v.named;
                  })
                  tidy)
        ]
      ]
    ]
  ]
]

remove-IsTidy : (id : ℕ) (s : Desk) → IsTidy s → IsTidy (remove id s).1
unfolding remove
remove-IsTidy id s tidy = elim (Bool-cases (not (is_some (row id s.quotes)))) [
  | inl missing ↦ rw (missing, remove) tidy
  | inr there ↦ rw (there, remove) (AllRows-drop_rows IsValid (λ k _. k == id) s.quotes tidy)
]

module _ (now : ℕ) where
  prepared-IsTidy :
      (drafts : List QuoteDraft) (user : ℕ) (s : Desk)
      → IsTidy s
      → IsTidy (write_prepared (prepare_create now user drafts s) s).1
  prepared-IsTidy drafts user s tidy = elim (Result-cases (prepare_create now user drafts s)) [
    | inr (e, failed) ↦ rw failed tidy
    | inl (qs, done) ↦
        rw done (
          insert_quotes-IsValid qs s.quotes (prepare_create-IsValid now s user drafts qs done) tidy)
  ]

  create_bulk-IsTidy :
      (drafts : List QuoteDraft) (user : ℕ) (s : Desk)
      → IsTidy s
      → IsTidy (create_bulk now drafts user s).1
  unfolding create_bulk
  create_bulk-IsTidy drafts user s tidy =
      elim (Bool-cases (is_empty drafts || ltb max_quote_bulk_items (length drafts))) [
        | inl refused ↦ rw (refused, create_bulk) tidy
        | inr fine ↦ rw (fine, create_bulk) (prepared-IsTidy drafts user s tidy)
      ]

  update-IsTidy : (id : ℕ) (d : QuoteDraft) (s : Desk) → IsTidy s → IsTidy (update now id d s).1
  unfolding update
  update-IsTidy id d s tidy = elim (Option-cases (row id s.quotes)) [
    | inl missing ↦ rw (missing, update) tidy
    | inr (q, there) ↦ elim (Result-cases (updated now d q s)) [
      | inr (e, failed) ↦ rw (there, failed, update) tidy
      | inl (r, done) ↦
          rw (there, done, update)
            (AllRows-put IsValid id r s.quotes
              (updated-IsValid now s d q r (AllRows-row IsValid id q s.quotes tidy there) done)
              tidy)
    ]
  ]

  -- Every operation on quotes leaves well-formed quotes, however it ends: in each, the status is one
  -- of the stage, there is a date of sending exactly while it is sent, the description is not empty,
  -- a comment that is there is not, and no text is too long, whatever the
  -- names of the registered clients. They were well formed before.
  pub run-IsTidy : (r : QuoteRequest) (s : Desk) → IsTidy s → IsTidy (run now r s).1
  unfolding run create
  run-IsTidy (creates d user) s tidy = prepared-IsTidy (d ∷ []) user s tidy
  run-IsTidy (creates_many drafts user) s tidy = create_bulk-IsTidy drafts user s tidy
  run-IsTidy (updates id d) s tidy = update-IsTidy id d s tidy
  run-IsTidy (links id order) s tidy = link_order-IsTidy id order s tidy
  run-IsTidy (removes id) s tidy = remove-IsTidy id s tidy
