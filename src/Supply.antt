-- ===== src/Supply.antt =====
-- The sheet of materials of an area and its inventory: src/order/order-area-supply.ts.
-- `Supply.Move` discounts and returns the lines, `Supply.Sheet` saves the sheet; their children
-- prove what they keep.
pub mod Move
pub mod Sheet
mod Tests
