-- ===== src/Api.antt =====
-- src/tasker_rfid/services/api: the handlers of the routers. FastAPI and pydantic check the form of a
-- request and answer it; a handler either changes the tables in one transaction or raises
-- HTTPException, and then it changes nothing. The sentences of the errors are left out.
pub mod Sessions
pub mod Containers
pub mod Counts
pub mod Queue
pub mod Stock
pub mod Reports
pub mod Health
mod Examples
use tasker_rfid.Prelude.{ℕ, String, Bool, Option, List}
use tasker_rfid.Schema.{Db}

pub record HttpException : Type 0 where
  pub status_code : ℕ

-- A row of container_contents.
pub record Content : Type 0 where
  pub container_id : ℕ
  pub sku_id : String
  pub quantity : ℕ
  pub lot : Option String
  pub produced_at : Option ℕ
  pub expiry : Option ℕ

pub record CycleCount : Type 0 where
  pub cycle_id : ℕ
  pub started_at : ℕ
  pub finished_at : Option ℕ
  pub operator : Option String
  pub notes : Option String

pub record CycleCountItem : Type 0 where
  pub cycle_id : ℕ
  pub tid : String
  pub found : Bool

-- The tables that the state engine works on, and those that only the API does. Of customers and skus
-- only the keys are looked at.
pub record Tables : Type 0 where
  pub db : Db
  pub customers : List String
  pub skus : List String
  pub container_contents : List Content
  pub cycle_counts : List CycleCount
  pub cycle_count_items : List CycleCountItem
