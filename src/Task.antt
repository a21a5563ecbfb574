-- ===== src/Task.antt =====
-- The tasks of an order, one per area: `OrderAreaTaskService` of
-- src/order/order-area-task.service.ts.
pub mod Sync
pub mod Notify
pub mod Guards
pub mod Status
pub mod Stage
pub mod Assign
pub mod Create
pub mod Decision
mod Tests
