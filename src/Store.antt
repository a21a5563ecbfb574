-- ===== src/Store.antt =====
-- The tables of prisma/schema.prisma that the modelled services read and write, with the columns
-- that they use, and the outbox of notifications. Decimal columns hold integers in their smallest
-- unit (thousandths for quantities, hundredths for prices); a time is a number of milliseconds.
use backend_emd.Prelude.{ℕ, Bool, Option, List, String}
use backend_emd.Prelude.Int.{ℤ}
use backend_emd.Prelude.Table.{Table}
use backend_emd.Area.Stages.{AreaStageView}
use backend_emd.Area.Config.{FieldValues}
use backend_emd.Area.Catalog.{AreaView}

pub data AreaTaskStatus : Type 0 where
  pendiente en_proceso terminado : AreaTaskStatus

pub data SampleTestResult : Type 0 where
  aprobada rechazada : SampleTestResult

pub data SupplySource : Type 0 where
  cliente nosotros : SupplySource

pub data MovementType : Type 0 where
  entrada salida ajuste : MovementType

-- `InventoryItem`
pub record Item : Type 0 where
  pub name : String
  pub unit : String
  pub area : String
  pub quantity : ℤ
  pub min_stock : Option ℤ
  pub unit_cost : Option ℤ

-- `InventoryMovement`
pub record Movement : Type 0 where
  pub item : ℕ
  pub type : MovementType
  pub delta : ℤ
  pub balance_before : ℤ
  pub balance_after : ℤ
  pub area : String
  pub source : String
  pub order : Option ℕ
  pub area_task : Option ℕ
  pub created_by : ℕ

-- `OrderAreaSupply`, whose key is its task: a task has one sheet at most.
pub record Supply : Type 0 where
  pub source : SupplySource
  pub created_by : ℕ

-- `OrderAreaSupplyLine`; `task` is the key of its sheet.
pub record Line : Type 0 where
  pub task : ℕ
  pub item : Option ℕ
  pub description : String
  pub quantity : ℤ
  pub discounted_at : Option ℕ

-- `AreaTaskSampleTest`, a round of review
pub record SampleTest : Type 0 where
  pub round : ℕ
  pub sent_by : ℕ
  pub sent_notes : Option String
  pub photo : Option String
  pub result : Option SampleTestResult
  pub result_notes : Option String
  pub decided_by : Option ℕ

-- `OrderAreaTask`
pub record Task : Type 0 where
  pub order : ℕ
  pub area : String
  pub status : AreaTaskStatus
  pub assigned_user : Option ℕ
  pub started_at : Option ℕ
  pub completed_at : Option ℕ
  pub stage : Option ℕ
  pub machine : Option ℕ
  pub field_values : FieldValues
  pub sample_tests : List SampleTest

-- `Order`
pub record Order : Type 0 where
  pub status : ℕ
  pub user : ℕ
  pub attended_by : Option ℕ
  pub branch : Option ℕ
  pub assigned_user : Option ℕ
  pub area : Option String
  pub production_area : Option String
  pub requires_design : Bool
  pub archived_at : Option ℕ
  pub design_started_at : Option ℕ
  pub design_started_by : Option ℕ
  pub materials_priority : Option ℕ

-- `OrderHistory`
pub record HistoryEntry : Type 0 where
  pub order : ℕ
  pub previous_status : ℕ
  pub new_status : ℕ

-- `DesignRevision`
pub record DesignRevision : Type 0 where
  pub order : ℕ
  pub round : ℕ
  pub sent_by : Option ℕ
  pub files : List String
  pub feedback_text : Option String
  pub feedback_files : List String
  pub approved : Bool

-- `User`; `areas` are the slugs of the areas that the user works in.
pub record User : Type 0 where
  pub areas : List String
  pub roles : List String
  pub is_shared_account : Bool
  pub branch : Option ℕ
  pub notifications_muted : Bool
  pub notify_mentions_only : Bool
  pub notify_production_updates : Bool
  pub notify_critical_alerts : Bool

-- `Notification`, without its texts
pub record Notice : Type 0 where
  pub user : ℕ
  pub type : String
  pub order : Option ℕ

-- `ClientDesignResponse.status`
pub data ResponseStatus : Type 0 where
  pendiente aplicada descartada reemplazada : ResponseStatus

-- `ClientDesignResponse`, what a client answered through the link, until Reception applies it.
pub record ClientResponse : Type 0 where
  pub order : ℕ
  pub revision : ℕ
  pub approves : Bool
  pub status : ResponseStatus
  pub resolved_by : Option ℕ

-- A row of `AuditLog` or `OrderAuditLog`.
pub record AuditEntry : Type 0 where
  pub user : ℕ
  pub action : String
  pub order : ℕ

pub record Store : Type 0 where
  pub areas : List AreaView
  pub stages : Table AreaStageView
  pub users : Table User
  pub statuses : List (String × ℕ)
  pub orders : Table Order
  pub history : List HistoryEntry
  pub revisions : Table DesignRevision
  pub tasks : Table Task
  pub supplies : Table Supply
  pub lines : Table Line
  pub items : Table Item
  pub movements : List Movement
  pub notices : List Notice
  pub audit : List AuditEntry
  pub responses : Table ClientResponse
