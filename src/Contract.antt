-- ===== src/Contract.antt =====
-- The runtime contract (packages/runtime-contract/src/index.ts) and the execution references of the
-- engine (packages/engine/src/execution-host.ts): evidence that run events carry. A property that is
-- one constant text, such as a version tag, is left out where every value has it; an optional
-- property is an `Option`.
use anastom.Prelude.{ℕ, Bool, String, List, Option, Dict}
use anastom.Json.{JsonValue}

pub data WorkspaceMode : Type 0 where
  memory readonly isolated : WorkspaceMode

pub data StructuredOutput : Type 0 where
  native prompted not_structured : StructuredOutput

pub data UsageReporting : Type 0 where
  tokens cost partly not_reported : UsageReporting

pub record RuntimeCapabilities : Type 0 where
  pub streaming : Bool
  pub cancellation : Bool
  pub resumable_session : Bool
  pub native_subagents : Bool
  pub mcp : Bool
  pub lsp : Bool
  pub debugger : Bool
  pub browser : Bool
  pub structured_output : StructuredOutput
  pub usage_reporting : UsageReporting
  pub sandboxing : List String
  pub workspace_modes : Option (List WorkspaceMode)

pub data WorkspaceRef : Type 0 where
  memory_workspace : (id : String) → WorkspaceRef
  readonly_workspace : (id repo_root path base_commit : String) → WorkspaceRef
  isolated_workspace : (id repo_root path base_commit branch : String) → WorkspaceRef

-- `workspace.id`, which each member of the union has.
abbrev pub workspace_id : WorkspaceRef → String
workspace_id (memory_workspace i) = i
workspace_id (readonly_workspace i _ _ _) = i
workspace_id (isolated_workspace i _ _ _ _) = i

pub record Producer : Type 0 where
  pub run_id : String
  pub node_id : String
  pub attempt : ℕ

pub record ArtifactRef : Type 0 where
  pub id : String
  pub artifact_type : String
  pub media_type : String
  pub uri : String
  pub digest : String
  pub producer : Producer

pub record CheckpointOwnership : Type 0 where
  pub repository_root : String
  pub repository_common_directory : String
  pub workspace_path : String
  pub workspace_git_directory : String
  pub branch : String
  pub manifest_digest : String
  pub registration_digest : String

pub record WorkspaceCheckpoint : Type 0 where
  pub workspace_id : String
  pub base_commit : String
  pub head_commit : String
  pub diff_digest : String
  pub changed_files : List String
  pub ignored_digest : String
  pub ignored_entry_count : ℕ
  pub ignored_byte_count : ℕ
  pub ownership : CheckpointOwnership
  pub diff_artifact_id : Option String

pub data WorkspaceDifference : Type 0 where
  version workspace_identity base_commit head_commit diff_digest changed_files : WorkspaceDifference
  ignored_content repository workspace_path branch : WorkspaceDifference
  ownership_manifest worktree_registration : WorkspaceDifference

pub data FailureCategory : Type 0 where
  runtime_unavailable model_provider tool schema_violation verification : FailureCategory
  budget_exhausted policy_violation workspace_conflict human_rejection : FailureCategory
  unknown_internal : FailureCategory

pub record ExecutionFailure : Type 0 where
  pub category : FailureCategory
  pub message : String

-- The `status` of an `ExecutionResult`.
pub data ResultStatus : Type 0 where
  succeeded failed blocked cancelled : ResultStatus

pub data MetadataSource : Type 0 where
  configured reported : MetadataSource

pub record RuntimeMetadata : Type 0 where
  pub provider : String
  pub model : String
  pub source : Option MetadataSource
  pub runtime_version : Option String

pub data UsageCoverage : Type 0 where
  complete partial : UsageCoverage

pub record RuntimeUsage : Type 0 where
  pub coverage : UsageCoverage
  pub input_tokens : Option ℕ
  pub output_tokens : Option ℕ
  pub cache_read_tokens : Option ℕ
  pub cache_write_tokens : Option ℕ
  pub reasoning_tokens : Option ℕ
  pub total_tokens : Option ℕ

pub data RuntimeEvent : Type 0 where
  started : RuntimeEvent
  log : (message : String) → (dropped_logs : Option ℕ) → RuntimeEvent
  metadata : RuntimeMetadata → RuntimeEvent
  usage : RuntimeUsage → RuntimeEvent
  completed : ResultStatus → RuntimeEvent

-- The requirements `cancellation: true` and `structuredOutput: "validated"` are constant.
pub record RuntimeNegotiation : Type 0 where
  pub runtime_id : String
  pub workspace_mode : WorkspaceMode
  pub capabilities : RuntimeCapabilities

pub record RuntimeDescriptor : Type 0 where
  pub runtime_id : String
  pub configuration_version : String
  pub configuration : Dict JsonValue

pub data ExecutionKind : Type 0 where
  runtime command : ExecutionKind

abbrev pub execution_kind_eq : ExecutionKind → ExecutionKind → Bool
execution_kind_eq runtime runtime = Bool.true
execution_kind_eq command command = Bool.true
execution_kind_eq _ _ = Bool.false

pub record ExecutionPlanRef : Type 0 where
  pub version : String
  pub run_id : String
  pub execution_id : String
  pub kind : ExecutionKind
  pub generation : ℕ
  pub plan_digest : String

pub record PersistedExecutionRef : Type 0 where
  pub plan : ExecutionPlanRef
  pub open plan use *
  pub manifest_digest : String

-- The final report of a command (packages/engine/src/command.ts).
pub record CommandReport : Type 0 where
  pub passed : Bool
  pub exit_code : Option ℕ
  pub signal : Option String
  pub duration_ms : ℕ
  pub stdout_bytes : ℕ
  pub stderr_bytes : ℕ
  pub stdout_truncated : Bool
  pub stderr_truncated : Bool
