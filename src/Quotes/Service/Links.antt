-- ===== src/Quotes/Service/Links.antt =====
-- An order is of one quote at most.
use backend_emd.Prelude.{
  ℕ, ◌≡◌, sym, ap, ◌∙◌, ◌⊎◌, inl, inr, arith, nat_eq, option_eq, ◌==◌, true, false, not, contains,
  none, some, [], ◌∷◌, Bool-cases, Option-cases, some_unique, false-or-true,
}
use backend_emd.Prelude.Table.{Table, row, put, row-put_self, row-put_ne, HasDistinctKeys}
use backend_emd.Quotes.{is_accepted}
use backend_emd.Quotes.Prepare.{Quote, Desk}
use backend_emd.Quotes.Service.{linked_to, is_linked_elsewhere, link_order}

-- No two quotes have the same order.
abbrev pub HasOneQuote : Table Quote → Type 0
HasOneQuote t =
    (order j k : ℕ) (p q : Quote)
    → row j t ≡ some p
    → row k t ≡ some q
    → p.order ≡ some order
    → q.order ≡ some order
    → j ≡ k

some_inj : {a b : ℕ} → some a ≡ some b → a ≡ b
some_inj h = cc

is_of : (q : Quote) (order : ℕ) → (q.order == some order) ≡ true → q.order ≡ some order
is_of q order = (option_eq.decides q.order (some order)).0

has : (q : Quote) (order : ℕ) → q.order ≡ some order → (q.order == some order) ≡ true
has q order = (option_eq.decides q.order (some order)).1

linked_to-none :
    (order k : ℕ) (q : Quote) (t : Table Quote)
    → linked_to order t ≡ none
    → row k t ≡ some q
    → (q.order == some order) ≡ false
unfolding linked_to
linked_to-none order k q [] h e = cc
linked_to-none order k q ((j, p) ∷ t) h e = ground (arith, linked_to-none order k q t)

linked_to-ne :
    (order k l : ℕ) (q : Quote) (t : Table Quote)
    → HasDistinctKeys t
    → linked_to order t ≡ some l
    → row k t ≡ some q
    → (q.order == some order) ≡ true
    → (p : Quote) × (row l t ≡ some p) × (p.order ≡ some order)
unfolding linked_to
linked_to-ne order k l q [] d h e x = cc
linked_to-ne order k l q ((j, p) ∷ t) d h e x = elim (Bool-cases (p.order == some order)) [
  | inl here ↦ (p, ground arith, is_of p order here)
  | inr later ↦
      let (r, there, linked) = linked_to-ne order k l q t d.1 (ground arith) (ground arith) x in
      (r, ground arith, linked)
]

-- The order is free for the quote.
free_for :
    (id order k : ℕ) (q : Quote) (t : Table Quote)
    → HasDistinctKeys t
    → HasOneQuote t
    → is_linked_elsewhere id (linked_to order t) ≡ false
    → row k t ≡ some q
    → q.order ≡ some order
    → k ≡ id
free_for id order k q t d one free there linked = elim (Option-cases (linked_to order t)) [
  | inl nobody ↦
      absurd (false-or-true (linked_to-none order k q t nobody there) (has q order linked))
  | inr (l, found) ↦
      let (p, at_l, also) = linked_to-ne order k l q t d found there (has q order linked) in
      let same : k ≡ l = one order k l q p there at_l linked also in ground arith
]

-- A row after the write: the quote that is written, with the order, or one that was there.
after :
    (id order : ℕ) (q : Quote) (t : Table Quote) (k o : ℕ) (a : Quote)
    → row k (put id (record q { order = some order }) t) ≡ some a
    → a.order ≡ some o
    → ((k ≡ id) × (o ≡ order)) ⊎ (row k t ≡ some a)
after id order q t k o a at has_order = elim (Bool-cases (id == k)) [
  | inl same ↦
      let e : k ≡ id = ground arith in
      inl (
        e,
        new
            (some_unique
              (ap (λ x. row x (put id (record q { order = some order }) t)) e
                ∙ row-put_self id (record q { order = some order }) t)
              at)
            has_order,
      )
  | inr differ ↦ inr (sym (row-put_ne k id (record q { order = some order }) t (ground arith)) ∙ at)
]
  where
    new : (record q { order = some order }) ≡ a → a.order ≡ some o → o ≡ order
    new e f = some_inj (sym f ∙ sym (ap (λ (x : Quote). x.order) e))

put-HasOneQuote :
    (id order : ℕ) (q : Quote) (t : Table Quote)
    → HasDistinctKeys t
    → HasOneQuote t
    → is_linked_elsewhere id (linked_to order t) ≡ false
    → HasOneQuote (put id (record q { order = some order }) t)
put-HasOneQuote id order q t d one free o j k a b ja kb ao bo =
    elim (after id order q t j o a ja ao) [
      | inl (j_id, j_order) ↦ elim (after id order q t k o b kb bo) [
        | inl (k_id, _) ↦ j_id ∙ sym k_id
        | inr old ↦ j_id ∙ sym (free_for id order k b t d one free old (bo ∙ ap some j_order))
      ]
      | inr was ↦ elim (after id order q t k o b kb bo) [
        | inl (k_id, k_order) ↦
            free_for id order j a t d one free was (ao ∙ ap some k_order) ∙ sym k_id
        | inr old ↦ one o j k a b was old ao bo
      ]
    ]

-- Linking keeps every order with one quote at most, however it ends, if that held before and no two
-- quotes have one key.
pub link_order-HasOneQuote :
    (id order : ℕ) (s : Desk)
    → HasDistinctKeys s.quotes
    → HasOneQuote s.quotes
    → HasOneQuote (link_order id order s).1.quotes
unfolding link_order
link_order-HasOneQuote id order s d one = elim (Option-cases (row id s.quotes)) [
  | inl missing ↦ rw (missing, link_order) one
  | inr (q, there) ↦ elim (Bool-cases (not (is_accepted q.status))) [
    | inl refused ↦ rw (there, refused, link_order) one
    | inr accepted ↦ elim (Bool-cases (order == 0)) [
      | inl zero ↦ rw (there, accepted, zero, link_order) one
      | inr positive ↦ elim (Bool-cases (not (contains s.orders order))) [
        | inl unknown ↦ rw (there, accepted, positive, unknown, link_order) one
        | inr known ↦ elim (Bool-cases (is_linked_elsewhere id (linked_to order s.quotes))) [
          | inl linked ↦ rw (there, accepted, positive, known, linked, link_order) one
          | inr free ↦
              rw (there, accepted, positive, known, free, link_order)
                (put-HasOneQuote id order q s.quotes d one free)
        ]
      ]
    ]
  ]
]
