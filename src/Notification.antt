-- ===== src/Notification.antt =====
-- Notifications: `NotificationService` of src/notification/notification.service.ts, up to the
-- rows that it writes. The push services are told the same and are left out, and so are titles
-- and bodies. A row for a user that is not there breaks the foreign key: that is `internal`.
pub mod Reach
pub mod Frame
pub mod Others
mod Tests
use backend_emd.Prelude.{
  is_empty, ℕ, nat_eq, string_eq, option_eq, ◌==◌, contains, any, all, keep, Bool, true, false, not,
  ◌&&◌, ◌||◌, Option, none, some, List, [], ◌∷◌, ◌++◌, map, String, if◌then◌else◌, is_some,
}
use backend_emd.Prelude.Table.{Table, row, rows}
use backend_emd.Http.{Result, ok, err, internal, Action}
use backend_emd.Area.Access.{is_branch_only_user}
use backend_emd.Store.{User, Order, Notice, Store}

-- PRODUCTION_NOTIFICATION_TYPES
abbrev pub production_notification_types : List String
production_notification_types =
    "order_assigned" ∷ "order_status_changed" ∷ "area_task_created" ∷ "area_task_completed"
    ∷ "order_ready" ∷ "area_user_updated_order" ∷ "design_montage_sent" ∷ "design_feedback_added"
    ∷ "design_approved" ∷ "embroidery_test_sent" ∷ "embroidery_test_approved"
    ∷ "embroidery_test_rejected" ∷ []

-- MENTION_NOTIFICATION_TYPES
abbrev pub mention_notification_types : List String
mention_notification_types = []

unfoldable pub should_notify : Option User → String → Bool
should_notify none type = true
should_notify (some prefs) type =
    let is_mention = contains mention_notification_types type in
    if prefs.notifications_muted
    then is_mention
    else if prefs.notify_mentions_only
    then is_mention
    else if contains production_notification_types type
    then prefs.notify_production_updates
    else prefs.notify_critical_alerts

abbrev pub is_branch_account : User → Bool
is_branch_account u = is_branch_only_user (record { roles = some u.roles; areas = some u.areas })

-- What the filter of `excludeBranchStrangers` keeps.
unfoldable pub may_hear_of : Option Order → User → Bool
unfolding is_branch_only_user
may_hear_of order u =
    let order_branch : Option ℕ = elim order [ none ↦ none | some o ↦ o.branch ] in
    not (is_branch_account u) || (is_some order_branch && order_branch == u.branch)

unfoldable pub exclude_branch_strangers : List (ℕ × User) → ℕ → Store → List (ℕ × User)
unfolding may_hear_of
exclude_branch_strangers users order s =
    if any (λ r. is_branch_account r.1) users
    then keep (λ r. may_hear_of (row order s.orders) r.1) users
    else users

-- `notification.createMany`
abbrev pub create_notices : List ℕ → String → Option ℕ → Action Store (Unit {0})
create_notices ids type order s =
    if all (λ id. is_some (row id s.users)) ids
    then (
      ok tt,
      record s {
        notices = s.notices ++ map (λ id. record { user = id; type = type; order = order }) ids;
      },
    )
    else (err internal, s)

-- The second test of `createNotification`: the order is of another branch.
unfoldable pub is_stranger_to : ℕ → Option User → Option ℕ → Store → Bool
unfolding exclude_branch_strangers
is_stranger_to id (some prefs) (some order) s =
    is_empty (exclude_branch_strangers ((id, prefs) ∷ []) order s)
is_stranger_to id none order s = false
is_stranger_to id (some prefs) none s = false

unfoldable pub create_notification : ℕ → String → Option ℕ → Action Store (Unit {0})
unfolding should_notify is_stranger_to
create_notification id type order s =
    let prefs = row id s.users in
    if not (should_notify prefs type)
    then (ok tt, s)
    else if is_stranger_to id prefs order s
    then (ok tt, s)
    else create_notices (id ∷ []) type order s

abbrev pub allowed_users : List ℕ → Option ℕ → Store → Table User
allowed_users ids order s =
    let users = rows (λ k _. contains ids k) s.users in
    elim order [ none ↦ users | some o ↦ exclude_branch_strangers users o s ]

unfoldable pub recipients : List ℕ → String → Option ℕ → Store → List ℕ
unfolding should_notify exclude_branch_strangers
recipients ids type order s =
    let prefs = allowed_users ids order s in
    keep
      (λ id. (not (is_some order) || is_some (row id prefs)) && should_notify (row id prefs) type)
      ids

unfoldable pub create_notification_for_users : List ℕ → String → Option ℕ → Action Store (Unit {0})
unfolding recipients
create_notification_for_users ids type order s =
    let to = recipients ids type order s in
    if is_empty ids
    then (ok tt, s)
    else if is_empty to
    then (ok tt, s)
    else create_notices to type order s

unfoldable pub user_ids_for_area : String → Store → List ℕ
user_ids_for_area area s = map (λ r. r.0) (rows (λ _ u. contains u.areas area) s.users)
