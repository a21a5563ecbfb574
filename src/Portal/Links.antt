-- ===== src/Portal/Links.antt =====
-- A link that was renewed or withdrawn opens nothing (`regenerateLink` and `revokeLink` of
-- src/client-portal/client-portal.service.ts).
use backend_emd.Prelude.{
  ℕ, ◌≡◌, ◌≢◌, refl, sym, ap, ◌∙◌, subst, inl, inr, arith, nat_eq, string_eq, ◌==◌, ltb, ◌||◌,
  false, none, some, [], ◌∷◌, String, Bool-cases, Option-cases, none-or-some, some_unique,
  false-or-true, text_length,
}
use backend_emd.Prelude.Table.{
  Table, row, put, drop_rows, row-put_self, row-put_ne, HasDistinctKeys, HasDistinctKeys-put,
}
use backend_emd.Http.{Result, ok, err, not_found, Action, ◌>>=◌, modify, >>=-eq, >>=-eq_err}
use backend_emd.Store.{Order}
use backend_emd.Portal.{Link, Portal, link_with, find_order_by_token}
use backend_emd.Portal.Service.{renewed, renew, regenerate_link, revoke_link, assert_order_exists}

-- No two orders have one token.
abbrev pub HasOwnTokens : Table Link → Type 0
HasOwnTokens t =
    (j k : ℕ) (a b : Link) → row j t ≡ some a → row k t ≡ some b → a.token ≡ b.token → j ≡ k

module _ (token : String) where
  link_with-row :
      (k : ℕ) (t : Table Link)
      → HasDistinctKeys t
      → link_with token t ≡ some k
      → (l : Link) × (row k t ≡ some l) × (l.token ≡ token)
  unfolding link_with
  link_with-row k [] d h = absurd (none-or-some refl h)
  link_with-row k ((j, l) ∷ t) d h = elim (Bool-cases (l.token == token)) [
    | inl here ↦ (l, ground arith, (string_eq.decides l.token token).0 here)
    | inr later ↦ let (m, there, is) = link_with-row k t d.1 (ground arith) in (m, ground arith, is)
  ]

  -- A table in which no row has the token knows no order for it.
  link_with-none :
      (t : Table Link)
      → HasDistinctKeys t
      → ((k : ℕ) (l : Link) → row k t ≡ some l → l.token ≡ token → ⊥)
      → link_with token t ≡ none
  link_with-none t d nobody = elim (Option-cases (link_with token t)) [
    | inl missing ↦ missing
    | inr (k, found) ↦
        let (l, there, is) = link_with-row k t d found in absurd (nobody k l there is)
  ]

module _ (order : ℕ) where
  row-drop_rows-none :
      (k : ℕ) (t : Table Link) → row k t ≡ none → row k (drop_rows (λ k _. k == order) t) ≡ none
  row-drop_rows-none k [] h = refl
  row-drop_rows-none k ((j, l) ∷ t) h = ground (arith, row-drop_rows-none k t)

  HasDistinctKeys-drop_rows :
      (t : Table Link) → HasDistinctKeys t → HasDistinctKeys (drop_rows (λ k _. k == order) t)
  HasDistinctKeys-drop_rows [] d = tt
  HasDistinctKeys-drop_rows ((j, l) ∷ t) d =
      ground (arith, HasDistinctKeys-drop_rows t d.1, row-drop_rows-none j t)

  row-drop_rows :
      (k : ℕ) (l : Link) (t : Table Link)
      → row k (drop_rows (λ k _. k == order) t) ≡ some l
      → (row k t ≡ some l) × ((k == order) ≡ false)
  row-drop_rows k l [] h = absurd (none-or-some refl h)
  row-drop_rows k l ((j, m) ∷ t) h = ground (arith, row-drop_rows k l t)

-- How Reception takes a link back.
pub data Cut : Type 0 where
  renews : ℕ → String → ℕ → Cut
  withdraws : Cut

module _ (lower : String → String) where
  unfoldable pub cut : ℕ → Cut → Action Portal (Unit {0})
  unfolding regenerate_link revoke_link
  cut order (renews user token now) = regenerate_link lower order user token now
  cut order withdraws = revoke_link order

  -- The new token is not the old one.
  abbrev pub IsFresh : String → Cut → Type 0
  IsFresh old (renews user token now) = token ≢ old
  IsFresh old withdraws = Unit {0}

  unknown :
      (token : String) (now : ℕ) (p : Portal)
      → link_with token p.links ≡ none
      → find_order_by_token lower token now p ≡ err not_found
  unfolding find_order_by_token
  unknown token now p h =
      elim (Bool-cases (ltb (text_length token) 20 || ltb 100 (text_length token))) [
        | inl odd ↦ rw (odd, find_order_by_token) refl
        | inr even ↦ rw (even, h, find_order_by_token) refl
      ]

  module _ (order : ℕ) (l : Link) (p : Portal) (distinct : HasDistinctKeys p.links)
      (own : HasOwnTokens p.links) (there : row order p.links ≡ some l) where
    withdrawn : link_with l.token (drop_rows (λ k _. k == order) p.links) ≡ none
    withdrawn =
        link_with-none l.token (drop_rows (λ k _. k == order) p.links)
          (HasDistinctKeys-drop_rows order p.links distinct)
          (λ k m h is.
            let (was, other) = row-drop_rows order k m p.links h in
            let same : k ≡ order = own k order m l was there is in
            false-or-true other (ground arith))

    renewed_none :
        (new : Link) → new.token ≢ l.token → link_with l.token (put order new p.links) ≡ none
    renewed_none new fresh =
        link_with-none l.token (put order new p.links)
          (HasDistinctKeys-put order new p.links distinct)
          (λ k m h is. elim (Bool-cases (k == order)) [
            | inl here ↦
                let at : k ≡ order = ground arith in
                let now_new : new ≡ m =
                  some_unique
                    (ap (λ x. row x (put order new p.links)) at ∙ row-put_self order new p.links)
                    h in
                fresh (ap (λ (x : Link). x.token) now_new ∙ is)
            | inr other ↦
                let was : row k p.links ≡ some m =
                  sym (row-put_ne k order new p.links (ground arith)) ∙ h in
                let same : k ≡ order = own k order m l was there is in
                false-or-true other (ground arith)
          ])

    no_order : row order p.store.orders ≡ none → assert_order_exists order p ≡ (err not_found, p)
    no_order e = rw e refl

    an_order :
        (o : Order) → row order p.store.orders ≡ some o → assert_order_exists order p ≡ (ok o, p)
    an_order o e = rw e refl

    -- The second step of an operation that succeeds on the order.
    after_order :
        (write : Order → Action Portal (Unit {0}))
        → ((assert_order_exists order >>= write) p).0 ≡ ok tt
        → ((o : Order) → link_with l.token (write o p).1.links ≡ none)
        → link_with l.token ((assert_order_exists order >>= write) p).1.links ≡ none
    after_order write h k = elim (Option-cases (row order p.store.orders)) [
      | inl missing ↦ absurd (
          stuck (ap (λ r. r.0) (>>=-eq_err (assert_order_exists order) write p (no_order missing)))
            h)
      | inr (o, found) ↦
          subst (λ (r : Result (Unit {0}) × Portal). link_with l.token r.1.links ≡ none)
            (sym (>>=-eq (assert_order_exists order) write p (an_order o found))) (k o)
    ]
      where
        stuck :
            ((assert_order_exists order >>= write) p).0 ≡ err not_found
            → ((assert_order_exists order >>= write) p).0 ≡ ok tt
            → ⊥
        stuck a b = cc

    -- What the links are afterwards.
    gone_from_links :
        (c : Cut)
        → IsFresh l.token c
        → (cut order c p).0 ≡ ok tt
        → link_with l.token (cut order c p).1.links ≡ none
    unfolding cut regenerate_link revoke_link
    gone_from_links withdraws fresh h =
        after_order
          (λ _. modify (λ p. record p {
            links = drop_rows (λ k _. k == order) p.links;
            subscriptions = drop_rows (λ _ o. o == order) p.subscriptions;
          }))
          h (λ _. withdrawn)
    gone_from_links (renews user token now) fresh h =
        after_order (λ o. modify (renew lower order user token now o)) h
          (λ _. rw there (renewed_none (renewed lower token user now l) fresh))

  -- A link that Reception has renewed or withdrawn opens nothing any more: its old token is not found
  -- at any later time. No two links have one order or one token, and a new token is another text.
  pub cut_closes :
      (order : ℕ) (l : Link) (c : Cut) (later : ℕ) (p : Portal)
      → HasDistinctKeys p.links
      → HasOwnTokens p.links
      → row order p.links ≡ some l
      → IsFresh l.token c
      → (cut order c p).0 ≡ ok tt
      → find_order_by_token lower l.token later (cut order c p).1 ≡ err not_found
  cut_closes order l c later p distinct own there fresh h =
      unknown l.token later (cut order c p).1
        (gone_from_links order l p distinct own there c fresh h)
