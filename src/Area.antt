-- ===== src/Area.antt =====
-- Areas of work: src/area/area-access.ts, area-stages.ts and the catalogue of area.service.ts,
-- with the role rules of src/order/role-stage-mapping.ts and src/branch/branch-access.ts.
pub mod Access
pub mod Stages
pub mod Config
pub mod Catalog
mod Tests
