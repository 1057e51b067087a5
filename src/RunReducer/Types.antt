-- ===== src/RunReducer/Types.antt =====
-- The messages and the run state of apps/next/src/features/chat/types.ts, as far as
-- apps/next/src/features/chat/lib/runReducer.ts works on them. Fields that it passes on unread are `Json`.
use modular_agentic_system.Base.{ℕ, Bool, List, Option, Text}
use modular_agentic_system.Events.{Json, Items}

pub data Role : Type 0 where
  user assistant system tool : Role

pub data RowStatus : Type 0 where
  pending streaming complete error : RowStatus

pub data CallState : Type 0 where
  running completed failed : CallState

pub data DelegationState : Type 0 where
  attempt child_session failed_attempt : DelegationState

pub record ToolCallView : Type 0 where
  pub call_id : Text
  pub tool : Text
  pub tool_state : CallState
  pub file : Option Text
  pub content : Option Text
  pub delegation_state : Option DelegationState

pub data TodoStatus : Type 0 where
  pending in_progress completed cancelled : TodoStatus

pub record TodoView : Type 0 where
  pub content : Text
  pub status : TodoStatus

pub record PendingPermission : Type 0 where
  pub permission_id : Text
  pub permission_kind : Text
  pub tool_name : Option Text
  pub file_path : Option Text
  pub patterns : Option (List Text)
  pub decided : Option Text

pub record RowQuestion : Type 0 where
  pub prompt : Text
  pub options : Option Items

pub record Failover : Type 0 where
  pub requested : Text
  pub actual : Text
  pub reason : Text

pub record ChatMessage : Type 0 where
  pub id : Text
  pub role : Role
  pub text : Text
  pub parts : Option Json
  pub status : RowStatus
  pub created_at : Option Text
  pub run_id : Option Text
  pub model : Option Text
  pub provider : Option Text
  pub attachments : Option Json
  pub tool_calls : Option (List ToolCallView)
  pub todo_items : Option (List TodoView)
  pub reasoning : Option Text
  pub modified_files : Option (List Text)
  pub git_status : Option Text
  pub permission : Option PendingPermission
  pub question : Option RowQuestion
  pub visual_verification : Option Text
  pub failover : Option Failover
  pub handoff : Option Text
  pub error_code : Option Text

-- The phase is whatever string the events say.
pub record RunState : Type 0 where
  pub run_id : Option Text
  pub phase : Text
  pub status : Text
  pub version : ℕ
  pub is_streaming : Bool
  pub messages : List ChatMessage
  pub pending_question : Option Json
  pub pending_permission : Option Json
  pub error_of : Option Json
  pub usage : Option Json
  pub rejection : Option Json

pub record RunStreamEvent : Type 0 where
  pub event_type : Text
  pub payload : Option Json
