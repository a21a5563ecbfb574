-- ===== src/Quotes/Service.antt =====
-- The operations on quotes: `create`, `createBulk`, `update`, `linkOrder` and `remove` of
-- src/quote/quote.service.ts. Another request never comes between the reads and the write of one,
-- which the database's constraints answer for.
pub mod Keeps
pub mod Links
use backend_emd.Prelude.{
  ℕ, nat_eq, string_eq, option_eq, ◌==◌, contains, is_empty, is_some, or_else, ltb, length, Bool,
  true, false, not, ◌&&◌, ◌||◌, Option, none, some, List, [], ◌∷◌, ◌++◌, String, map, if◌then◌else◌,
}
use backend_emd.Prelude.Table.{Table, row, put, drop_rows, rows}
use backend_emd.Http.{
  Result, ok, err, bad_request, not_found, conflict, Action, ◌>>=◌, ◌>>◌, pure, gets, modify, check,
  or_throw, throw_if,
}
use backend_emd.Supply.Sheet.{next_key}
use backend_emd.Quotes.{
  QuoteStage, por_enviar, enviada, QuoteStatus, is_accepted, max_quote_bulk_items,
}
use backend_emd.Quotes.Input.{
  Value, undefined, null, text, number, other, assert_client_id, assert_client_name_shape,
  assert_description, parse_comment, parse_priority_date, resolve_stage_status,
}
use backend_emd.Quotes.Prepare.{Quote, QuoteDraft, Desk, prepare_create, updated}

unfoldable pub insert_quotes : List Quote → Table Quote → Table Quote
unfolding next_key
insert_quotes [] t = t
insert_quotes (q ∷ qs) t = insert_quotes qs (t ++ (next_key t, q) ∷ [])

abbrev pub write_quotes : List Quote → Desk → Desk
write_quotes qs s = record s { quotes = insert_quotes qs s.quotes }

abbrev pub write_prepared : Result (List Quote) → Action Desk (Unit {0})
write_prepared r = check r >>= λ qs. modify (write_quotes qs)

module _ (now : ℕ) where
  unfoldable pub create : QuoteDraft → ℕ → Action Desk (Unit {0})
  unfolding prepare_create insert_quotes
  create d user = gets (prepare_create now user (d ∷ [])) >>= write_prepared

  -- All of them or none.
  unfoldable pub create_bulk : List QuoteDraft → ℕ → Action Desk (Unit {0})
  unfolding prepare_create insert_quotes
  create_bulk drafts user =
      throw_if (is_empty drafts || ltb max_quote_bulk_items (length drafts)) bad_request
      >> (gets (prepare_create now user drafts) >>= write_prepared)

  unfoldable pub update : ℕ → QuoteDraft → Action Desk (Unit {0})
  unfolding updated
  update id d = do
    found ← gets (λ s. row id s.quotes)
    current ← or_throw found not_found
    verdict ← gets (updated now d current)
    q ← check verdict
    modify (λ s. record s { quotes = put id q s.quotes })

-- The quote that has the order.
unfoldable pub linked_to : ℕ → Table Quote → Option ℕ
linked_to order [] = none
linked_to order ((k, q) ∷ t) =
    let rest = linked_to order t in if q.order == some order then some k else rest

abbrev pub is_linked_elsewhere : ℕ → Option ℕ → Bool
is_linked_elsewhere id none = false
is_linked_elsewhere id (some k) = not (k == id)

unfoldable pub link_order : ℕ → ℕ → Action Desk (Unit {0})
unfolding linked_to
link_order id order = do
  found ← gets (λ s. row id s.quotes)
  q ← or_throw found not_found
  throw_if (not (is_accepted q.status)) bad_request
  throw_if (order == 0) bad_request
  there ← gets (λ s. contains s.orders order)
  throw_if (not there) not_found
  linked ← gets (λ s. linked_to order s.quotes)
  throw_if (is_linked_elsewhere id linked) conflict
  modify (λ s. record s { quotes = put id (record q { order = some order }) s.quotes })

-- `deleteMany({ where: { id } })`
unfoldable pub remove : ℕ → Action Desk (Unit {0})
remove id = do
  there ← gets (λ s. is_some (row id s.quotes))
  throw_if (not there) not_found
  modify (λ s. record s { quotes = drop_rows (λ k _. k == id) s.quotes })
