-- ===== src/Lib.antt =====
-- The backend of an embroidery and printing workshop: orders are split into one task per area,
-- tasks go through stages and states, use up materials, and make the order ready to deliver.
--
-- The parts and their files (paths from the repository's root):
-- Area: who works where, the stages, machines and fields of an area and the catalogue
--   (src/area/area-access.ts, area-stages.ts, area-config.ts, area.service.ts, and the role rules
--   of src/order/role-stage-mapping.ts and src/branch/branch-access.ts). Area/Access, Area/Stages,
--   Area/Config and Area/Catalog are one file of these each.
-- Store: the tables of prisma/schema.prisma as one record, with the columns that are used.
-- Supply/Move: the materials of a task leave and enter the inventory, and Supply/Sheet: their
--   sheet is saved (src/order/order-area-supply.ts). `move_supply_lines` is `moveSupplyLinesTx`,
--   `save_supplies` is `saveSuppliesTx`; names are the source's, with underscores.
-- Notification: what the notification service writes (src/notification/notification.service.ts).
-- Task: the tasks (src/order/order-area-task.service.ts). Task/Guards are its checks, Task/Status
--   is `updateStatus`, Task/Sync `syncOrderStatusFromTasks`, Task/Stage `advanceStage`,
--   Task/Decision `decideStage`, Task/Assign the assignment,
--   Task/Create `createTasksForAreas`, and Task/Notify the messages.
-- Inventory: `registerMovement` of src/inventory/inventory.service.ts.
-- Orders: an order before production (src/order/order.service.ts). Orders/Access is who may see it,
--   Orders/Take who attends and who draws it, Orders/Rounds the rounds of design and what makes one
--   answerable, and Orders/Answers what the client says: `addDesignFeedback`, and
--   `approveDesignRevision`, which creates the tasks and saves their sheets.
-- Portal: the link by which a client sees an order and answers a round
--   (src/client-portal/client-portal.service.ts); the answers that Reception has not applied are rows of
--   the store, which Orders/Answers settles.
-- Quotes: the offers before an order (src/quote/quote.service.ts and quote.constants.ts), on a store
--   of their own, with the names of the registered clients. Quotes/Input is what a request may say,
--   Quotes/Prepare what it makes of a quote, and Quotes/Service the operations.
-- Csv: the writer of exports (src/common/utils/csv.ts), and Csv/Reader a reader to measure it by.
-- Latency: the percentiles of the latest requests (src/common/metrics/request-latency.tracker.ts).
-- Cache: the answers kept in memory (src/common/interceptors/in-memory-cache.interceptor.ts), with
--   a store of its own; no other part uses it.
-- `updateStatus` calls Supply/Move in its transaction, then Task/Sync and Task/Notify, which call
-- Notification; Inventory and Supply/Move write the same stock and the same log. An approval in
-- Orders/Answers calls Task/Create and Supply/Sheet in its transaction; its messages go through
-- Notification, as do those of all orders.
--
-- A handler is an `Action`: a function from the store to a result and a store (Http). The
-- exceptions of the framework are the values of `HttpError`; `transaction` undoes what a failed
-- body wrote, and outside a transaction what was written before a failure stays. In
-- Task/Status and in Cache a handler that reads before it writes is split there, so that other
-- requests can come between the two parts; row locks make the transactions themselves follow one
-- another. In the other parts a request is taken to run alone, between the requests before and
-- after it.
--
-- Loops run over finite lists by structural recursion: there is no fuel. Decimal columns hold
-- integers in their smallest unit, on which the code's decimals are exact; ids are natural numbers
-- and unbounded. A time is a number, the argument `now`.
--
-- Not modelled: texts of messages, push and live events, files in the storage, answers of the
-- handlers (their serialization, and what is taken out of it for branches), the caches of areas
-- and of status ids, and the services named in the manifest as not modelled. `toLowerCase` is a
-- parameter, since it needs the tables of Unicode, and so are the verdicts on the contents of a photo
-- and of the files of a round (`assert_files_valid`). Orders are not created, edited in general or
-- removed here; a whole number of milliseconds stands for the durations of Latency. A text that
-- is cut within a character of two units loses it whole.
pub mod Prelude
pub mod Http
pub mod Area
pub mod Store
pub mod Supply
pub mod Notification
pub mod Task
pub mod Inventory
pub mod Cache
pub mod Csv
pub mod Latency
pub mod Quotes
pub mod Orders
pub mod Portal
