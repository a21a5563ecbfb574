-- ===== src/Orders.antt =====
-- Orders before production: who sees them, who attends and who draws them, and the rounds of
-- design with the client's answers (src/order/order.service.ts).
pub mod Access
pub mod Frame
pub mod Take
pub mod Rounds
pub mod Answers
mod Tests
