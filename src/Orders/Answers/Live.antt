-- ===== src/Orders/Answers/Live.antt =====
-- A round that Design has sent can be answered: what `createDesignRevision` leaves passes the guards of
-- `addDesignFeedback` (src/order/order.service.ts).
use backend_emd.Prelude.{
  ℕ, ◌≡◌, refl, ◌∙◌, inl, inr, nat_eq, string_eq, ◌==◌, true, Option, none, some, List, [], ◌++◌,
  sym, subst, String, Bool-cases,
}
use backend_emd.Prelude.Table.{row, row-put_self, row-update_row}
use backend_emd.Http.{Result, ok, Action, ◌>>=◌, pure, check, >>=-eq}
use backend_emd.Area.Access.{RequestingUser, design_area}
use backend_emd.Area.Config.{value_at}
use backend_emd.Store.{Order, User, DesignRevision, Store}
use backend_emd.Notification.{create_notification, create_notices, should_notify, is_stranger_to}
use backend_emd.Notification.Frame.{Tells}
use backend_emd.Supply.Sheet.{next_key}
use backend_emd.Task.Sync.{id_for}
use backend_emd.Orders.Access.{assert_order_access}
use backend_emd.Orders.Access.Outcomes.{MaySee, assert_order_access-MaySee}
use backend_emd.Orders.Rounds.{
  status_name_esperando_autorizacion, status_name_cambios_solicitados,
  assert_revision_awaiting_response, get_design_revision_or_throw, judged, revision_awaiting,
  revision_to_answer, resolve_revision_files, create_design_revision,
}
use backend_emd.Orders.Rounds.Awaiting.{HasDistinctIds}
use backend_emd.Orders.Rounds.Opens.{Opens, create_design_revision-Opens}
use backend_emd.Orders.Answers.Idle.{tell_design-OnlyTells}
use backend_emd.Orders.Answers.{
  Feedback, with_status, feedback_guards, feedback_files_of, commit_feedback, add_design_feedback,
  write_feedback, tell_design, back_to_design,
}

create_notification-ok :
    (id : ℕ) (u : User) (type : String) (order : Option ℕ) (s : Store)
    → row id s.users ≡ some u
    → (create_notification id type order s).0 ≡ ok tt
unfolding create_notification
create_notification-ok id u type order s there =
    elim (Bool-cases (should_notify (row id s.users) type)) [
      | inr unwanted ↦ rw (unwanted, create_notification) refl
      | inl wanted ↦ elim (Bool-cases (is_stranger_to id (row id s.users) order s)) [
        | inl stranger ↦ rw (wanted, stranger, create_notification) refl
        | inr near ↦ rw (wanted, near, create_notification) (rw (there, create_notices) refl)
      ]
    ]

tell_design-ok :
    (order user : ℕ) (u : User) (r : DesignRevision) (s : Store)
    → r.sent_by ≡ some user
    → row user s.users ≡ some u
    → (tell_design order r s).0 ≡ ok tt
unfolding tell_design
tell_design-ok order user u r s by there =
    rw (by, tell_design)
      (create_notification-ok user u "design_feedback_added" (some order) s there)

-- In `s'` the round `k` of the order holds what the client said, and the order is back in Design,
-- with its designer, in the status.
pub record IsRecorded (order k status designer : ℕ) (said : String) (s' : Store) : Type 0 where
  pub answered : DesignRevision
  pub found : row k s'.revisions ≡ some answered
  pub of_order : answered.order ≡ order
  pub text : answered.feedback_text ≡ some said
  pub back : Order
  pub kept : row order s'.orders ≡ some back
  pub in_design : back.area ≡ some design_area
  pub waits : back.status ≡ status
  pub drawn_by : back.assigned_user ≡ some designer

-- What the client said in words only.
abbrev pub words : String → Feedback
words said = record { text = said; files = []; file = none }

module _ (lower : String → String) (order : ℕ) where
  revision_to_answer-Opens :
      (k user : ℕ) (asks : RequestingUser) (o : Order) (s : Store)
      (opens : Opens lower order user k s)
      → MaySee order (some asks) s o
      → revision_to_answer lower order k asks s ≡ (ok opens.opened, s)
  unfolding revision_to_answer revision_awaiting get_design_revision_or_throw
  revision_to_answer-Opens k user asks o s opens seen =
      >>=-eq (assert_order_access order (some asks)) (λ _. revision_awaiting lower order k) s
        (assert_order_access-MaySee order (some asks) s o seen)
      ∙ (>>=-eq (get_design_revision_or_throw order k) (judged lower order) s found
          ∙ rw accepted refl)
    where
      own : (opens.opened.order == order) ≡ true
      own = (nat_eq.decides opens.opened.order order).1 opens.of_order

      found : get_design_revision_or_throw order k s ≡ (ok opens.opened, s)
      found = rw (opens.found, own, get_design_revision_or_throw) refl

      accepted : assert_revision_awaiting_response lower order opens.opened s ≡ ok tt
      accepted = (opens.only k opens.opened opens.found opens.of_order).1 refl

  module _ (assert_files_valid : List String → Result (Unit {0})) where
    feedback_guards-Opens :
        (k user : ℕ) (said : String) (asks : RequestingUser) (o : Order) (s : Store)
        (opens : Opens lower order user k s)
        → MaySee order (some asks) s o
        → feedback_guards lower assert_files_valid order k (words said) asks s
          ≡ (ok (opens.opened, []), s)
    unfolding feedback_guards feedback_files_of resolve_revision_files
    feedback_guards-Opens k user said asks o s opens seen =
        >>=-eq (revision_to_answer lower order k asks)
          (λ r.
            check (feedback_files_of assert_files_valid (words said)) >>= λ files. pure (r, files))
          s (revision_to_answer-Opens k user asks o s opens seen)

    write_feedback-IsRecorded :
        (k user status by : ℕ) (said : String) (o : Order) (s : Store)
        (opens : Opens lower order user k s)
        → row order s.orders ≡ some o
        → IsRecorded order k status user said
            (write_feedback order k by (words said) [] status opens.opened s)
    unfolding write_feedback
    write_feedback-IsRecorded k user status by said o s opens kept = record {
      answered = record opens.opened {
        feedback_text = some said;
        feedback_files = opens.opened.feedback_files ++ [];
      };
      found = row-put_self k _ s.revisions;
      of_order = opens.of_order;
      text = refl;
      back = back_to_design status opens.opened.sent_by o;
      kept = row-update_row order (back_to_design status opens.opened.sent_by) o s.orders kept;
      in_design = refl;
      waits = refl;
      drawn_by = rw opens.by_user refl;
    }

    IsRecorded-told :
        (k user status : ℕ) (said : String) (s s' : Store)
        → Tells s s'
        → IsRecorded order k status user said s
        → IsRecorded order k status user said s'
    IsRecorded-told k user status said s s' same r =
        subst (IsRecorded order k status user said) (sym same) (record {
          answered = r.answered;
          found = r.found;
          of_order = r.of_order;
          text = r.text;
          back = r.back;
          kept = r.kept;
          in_design = r.in_design;
          waits = r.waits;
          drawn_by = r.drawn_by;
        })

    add_design_feedback-Opens :
        (k user status : ℕ) (said : String) (asks : RequestingUser) (o : Order) (u : User)
        (s : Store)
        → Opens lower order user k s
        → MaySee order (some asks) s o
        → value_at status_name_cambios_solicitados s.statuses ≡ some status
        → row user s.users ≡ some u
        → let (r, s') = add_design_feedback lower assert_files_valid order k (words said) asks s in
          (r ≡ ok tt) × IsRecorded order k status user said s'
    unfolding add_design_feedback id_for
    add_design_feedback-Opens k user status said asks o u s opens seen known there =
        rw
          (>>=-eq (with_status status_name_cambios_solicitados guards)
            (commit_feedback order k asks.user_id (words said)) s guarded)
          (
            tell_design-ok order user u opens.opened t opens.by_user there,
            IsRecorded-told k user status said t _ (tell_design-OnlyTells order opens.opened t)
                (write_feedback-IsRecorded k user status asks.user_id said o s opens seen.0),
          )
      where
        t : Store
        t = write_feedback order k asks.user_id (words said) [] status opens.opened s

        guards : Action Store (DesignRevision × List String)
        guards = feedback_guards lower assert_files_valid order k (words said) asks

        identified : id_for status_name_cambios_solicitados s ≡ (ok status, s)
        identified = rw (known, id_for) refl

        guarded :
            with_status status_name_cambios_solicitados guards s
            ≡ (ok ((opens.opened, []), status), s)
        guarded =
            >>=-eq guards
              (λ found. id_for status_name_cambios_solicitados >>= λ status. pure (found, status)) s
              (feedback_guards-Opens k user said asks o s opens seen)
            ∙ >>=-eq (id_for status_name_cambios_solicitados)
                (λ status. pure ((opens.opened, []), status)) s identified

    -- A round that Design has sent can be answered: for whoever may see the order afterwards, an
    -- answer without files succeeds, the round that was sent holds the client's words, and the order
    -- is back in Design, with who sent the round, in the status for requested changes. No two statuses have one id, the name of
    -- the status that waits is its own lower case, and afterwards the status for requested changes
    -- is there and the designer has an account.
    pub add_design_feedback-create_design_revision :
        (many : List String) (single : Option String) (user asks : RequestingUser) (said : String)
        (status : ℕ) (o : Order) (u : User) (s : Store)
        → HasDistinctIds s.statuses
        → (lower status_name_esperando_autorizacion == status_name_esperando_autorizacion) ≡ true
        → (create_design_revision assert_files_valid order many single user s).0 ≡ ok tt
        → let s' = (create_design_revision assert_files_valid order many single user s).1 in
          MaySee order (some asks) s' o
          → value_at status_name_cambios_solicitados s'.statuses ≡ some status
          → row user.user_id s'.users ≡ some u
          → let (r, s'') =
              add_design_feedback lower assert_files_valid order
                (next_key s.revisions)
                (words said)
                asks
                s' in
            (r ≡ ok tt) × IsRecorded order (next_key s.revisions) status user.user_id said s''
    add_design_feedback-create_design_revision many single user asks said status o u s distinct
          waits sent seen known there =
        add_design_feedback-Opens (next_key s.revisions) user.user_id status said asks o u
          (create_design_revision assert_files_valid order many single user s).1
          (create_design_revision-Opens lower assert_files_valid order many single user s distinct
            waits sent)
          seen known there
