-- ===== src/Mcp/Capabilities.antt =====
-- The server capabilities of pkg/mcp/capabilities.go. A nil pointer is `none`.
use garmx.Prelude.{Bool, Option}

pub record ToolsCapability : Type 0 where
  pub list_changed : Bool

pub record PromptsCapability : Type 0 where
  pub list_changed : Bool

pub record ResourcesCapability : Type 0 where
  pub subscribe : Bool
  pub list_changed : Bool

pub data LoggingCapability : Type 0 where
  logging : LoggingCapability

pub data CompletionsCapability : Type 0 where
  completions : CompletionsCapability

pub record ServerCapabilities : Type 0 where
  pub tools : Option ToolsCapability
  pub prompts : Option PromptsCapability
  pub resources : Option ResourcesCapability
  pub logging : Option LoggingCapability
  pub completions : Option CompletionsCapability
