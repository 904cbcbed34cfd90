-- ===== src/Runtime/Messages.antt =====
-- src/agent_foundation/a2a.py, payloads/task.py: the messages of a task, with the validators that run
-- when one is built.
pub mod Status
use decentralized_agentic_re.Prelude.{
  ℕ, String, Bool, true, false, not, ◌&&◌, Option, none, some, List, is_empty, is_none, is_some,
  if◌then◌else◌,
}
use decentralized_agentic_re.Prelude.Dict.{Uuid}
use decentralized_agentic_re.Prelude.Exec.{Result, ok, err, value_error}
use decentralized_agentic_re.Contracts.{Json}

pub data PartType : Type 0 where
  text : PartType
  data_ : PartType
  file : PartType

-- `part.type == "data"`
unfoldable pub is_data : PartType → Bool
is_data PartType.data_ = true
is_data _ = false

pub record A2aPart : Type 0 where
  pub type : PartType
  pub text : Option String
  pub data_ : Option Json
  pub file_uri : Option String

-- What a part of its type must carry.
is_incomplete : A2aPart → PartType → Bool
is_incomplete p PartType.text = is_none p.text
is_incomplete p PartType.data_ = is_none p.data_
is_incomplete p PartType.file = is_none p.file_uri

unfoldable pub validate_conditional_fields : A2aPart → Result A2aPart
unfolding is_incomplete
validate_conditional_fields p = if is_incomplete p p.type then err value_error else ok p

pub data Role : Type 0 where
  user : Role
  agent : Role

pub record A2aMessage : Type 0 where
  pub role : Role
  pub parts : List A2aPart
  pub task_id : Option Uuid

unfoldable pub validate_parts_nonempty : A2aMessage → Result A2aMessage
validate_parts_nonempty m = if is_empty m.parts then err value_error else ok m

pub data ErrorCategory : Type 0 where
  validation : ErrorCategory
  unsupported_capability : ErrorCategory
  handler_error : ErrorCategory
  duplicate : ErrorCategory
  internal : ErrorCategory

pub record TaskError : Type 0 where
  pub category : ErrorCategory
  pub message : String

pub record TaskRequest : Type 0 where
  pub task_id : Uuid
  pub capability : String
  pub requester_agent_id : String
  pub target_agent_id : String
  pub input : A2aMessage

pub data TaskStatus : Type 0 where
  completed : TaskStatus
  failed : TaskStatus
  rejected : TaskStatus

pub record TaskResult : Type 0 where
  pub task_id : Uuid
  pub status : TaskStatus
  pub performer_agent_id : String
  pub output : Option A2aMessage
  pub error : Option TaskError

-- `category not in ("handler_error", "internal")`
is_foreign_failure : ErrorCategory → Bool
is_foreign_failure handler_error = false
is_foreign_failure internal = false
is_foreign_failure _ = true

-- `category not in ("validation", "unsupported_capability", "duplicate")`
is_foreign_rejection : ErrorCategory → Bool
is_foreign_rejection validation = false
is_foreign_rejection unsupported_capability = false
is_foreign_rejection duplicate = false
is_foreign_rejection _ = true

completed_fields : TaskResult → Result TaskResult
completed_fields r =
    if is_none r.output then err value_error else if is_some r.error then err value_error else ok r

failed_fields : TaskResult → Option TaskError → Result TaskResult
unfolding is_foreign_failure
failed_fields r none = err value_error
failed_fields r (some e) =
    if is_some r.output
    then err value_error
    else if is_foreign_failure e.category
    then err value_error
    else ok r

rejected_fields : TaskResult → Option TaskError → Result TaskResult
unfolding is_foreign_rejection
rejected_fields r none = err value_error
rejected_fields r (some e) =
    if is_some r.output
    then err value_error
    else if is_foreign_rejection e.category
    then err value_error
    else ok r

fields_of : TaskResult → TaskStatus → Result TaskResult
unfolding completed_fields failed_fields rejected_fields
fields_of r completed = completed_fields r
fields_of r failed = failed_fields r r.error
fields_of r rejected = rejected_fields r r.error

unfoldable pub validate_status_fields : TaskResult → Result TaskResult
unfolding fields_of
validate_status_fields r = fields_of r r.status
