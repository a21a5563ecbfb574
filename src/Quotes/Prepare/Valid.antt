-- ===== src/Quotes/Prepare/Valid.antt =====
-- Every operation on the quotes of src/quote/quote.service.ts writes quotes that are well formed.
use backend_emd.Prelude.{
  ℕ, nat_eq, option_eq, ◌≡◌, subst, string_eq, ◌==◌, All, Option, none, String, List, [], ◌∷◌,
}
use backend_emd.Prelude.Table.{Table}
use backend_emd.Prelude.Selection.{AllRows}
use backend_emd.Http.{ok}
use backend_emd.Http.Checks.{>>=-inv, ok_inj}
use backend_emd.Quotes.Input.Accepted.{
  assert_description-IsDescription, resolve_stage_status-IsPlaced,
}
use backend_emd.Quotes.Prepare.{
  Quote, QuoteDraft, Desk, name_of_client, or_undefined, updated, prepare_item, prepare_items,
  prepare_create,
}
use backend_emd.Quotes.Prepare.Fields.{
  IsValid, IsName, sent_at_of-sent, typed_name-IsName, default_if_undefined-IsComment,
  chosen-IsName, updated_place-Fits, updated_description-IsDescription, updated_comment-IsComment,
}
use backend_emd.Quotes.Prepare.Names.{
  resolve_client_names-IsName, name_of_client-IsName, updated_client-IsName, updated_name-IsName,
}

module _ (now : ℕ) (s : Desk) where
  pub prepare_item-IsValid :
      (user : ℕ) (client : Option ℕ) (d : QuoteDraft) (names : Table String) (q : Quote)
      → AllRows IsName names
      → prepare_item now user client d names ≡ ok q
      → IsValid q
  unfolding prepare_item
  prepare_item-IsValid user client d names q short h =
      let (typed, t, h1) = >>=-inv h in
      let (u, n, h2) = >>=-inv h1 in
      let (place, p, h3) = >>=-inv h2 in
      let (description, e, h4) = >>=-inv h3 in
      let (comment, c, h5) = >>=-inv h4 in
      let (date, g, h6) = >>=-inv h5 in
      subst IsValid (ok_inj h6) (record {
        placed =
            resolve_stage_status-IsPlaced (or_undefined d.stage) (or_undefined d.status) none place
              tt p;
        sent = sent_at_of-sent place.0 now;
        described = assert_description-IsDescription d.description description e;
        commented = default_if_undefined-IsComment d.comment comment c;
        named =
            chosen-IsName (typed == "") (name_of_client client names) typed
              (name_of_client-IsName client names short) (typed_name-IsName d.client_name typed t);
      })

  prepare_items-IsValid :
      (user : ℕ) (clients : List (Option ℕ)) (drafts : List QuoteDraft) (names : Table String)
      (qs : List Quote)
      → AllRows IsName names
      → prepare_items now user clients drafts names ≡ ok qs
      → All IsValid qs
  unfolding prepare_items
  prepare_items-IsValid user (client ∷ clients) (d ∷ drafts) names qs short h =
      let (q, p, h1) = >>=-inv h in
      let (rest, r, h2) = >>=-inv h1 in
      subst (All IsValid) (ok_inj h2) (
        prepare_item-IsValid user client d names q short p,
        prepare_items-IsValid user clients drafts names rest short r,
      )
  prepare_items-IsValid user [] drafts names qs short h = subst (All IsValid) (ok_inj h) tt
  prepare_items-IsValid user (client ∷ clients) [] names qs short h =
      subst (All IsValid) (ok_inj h) tt

  pub prepare_create-IsValid :
      (user : ℕ) (drafts : List QuoteDraft) (qs : List Quote)
      → prepare_create now user drafts s ≡ ok qs
      → All IsValid qs
  unfolding prepare_create
  prepare_create-IsValid user drafts qs h =
      let (ids, i, h1) = >>=-inv h in
      let (names, r, h2) = >>=-inv h1 in
      prepare_items-IsValid user ids drafts names qs (resolve_client_names-IsName ids s names r) h2

  pub updated-IsValid :
      (d : QuoteDraft) (current q : Quote)
      → IsValid current
      → updated now d current s ≡ ok q
      → IsValid q
  unfolding updated
  updated-IsValid d current q v h =
      let (client, a, h1) = >>=-inv h in
      let (name, b, h2) = >>=-inv h1 in
      let (description, c, h3) = >>=-inv h2 in
      let (place, e, h4) = >>=-inv h3 in
      let (date, f, h5) = >>=-inv h4 in
      let (comment, g, h6) = >>=-inv h5 in
      let there = updated_place-Fits now d.stage d.status current place v e in
      subst IsValid (ok_inj h6) (record {
        placed = there.0;
        sent = there.1;
        described = updated_description-IsDescription d.description current description v c;
        commented = updated_comment-IsComment d.comment current comment v g;
        named =
            updated_name-IsName d.client_name client.0 client.1 current s name v.named
              (updated_client-IsName d.client_id current s client a) b;
      })
