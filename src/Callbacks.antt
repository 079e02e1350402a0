-- ===== src/Callbacks.antt =====
-- The HTTP callbacks of the agents (runtime/internal/callbacks/handler.go), over MemStore. A request is
-- what the JSON decoder gives, a `none` if it fails; the schema check of a result is an argument. Each
-- call of the store may fail: a failed call changes nothing.

pub mod Heartbeat
pub mod Reports
pub mod Repeats
pub mod Events
pub mod Renewals
pub mod Delivery
mod Tests
use hermes_ai_devops.Common.{String, Bool, true, false}

-- Which calls of the store fail.
pub record Faults : Type 0 where
  pub upsert_fails : Bool
  pub get_task_fails : String → Bool
  pub renew_fails : String → Bool
  pub append_fails : Bool
  pub set_status_fails : Bool
  pub save_fails : Bool

-- Status 400 with a code, status 500 with the code store_error, status 200.
pub data Response : Type 0 where
  bad_request : String → Response
  store_error : Response
  accepted : Response

abbrev pub is_accepted : Response → Bool
is_accepted accepted = true
is_accepted store_error = false
is_accepted (bad_request code) = false
