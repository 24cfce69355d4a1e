-- ===== src/Runners.antt =====
-- harness/runners/base.py: what the sandbox needs from a language. The methods of a runner are the
-- fields of a record over the host's directory trees; the runners of the single languages are
-- values of it.
pub mod Syntax
pub mod Scopes
pub mod Comments
pub mod Markers
pub mod PythonSetup
pub mod Python
pub mod GoSetup
pub mod GoEvents
pub mod Go
pub mod RustSetup
pub mod Rust
pub mod TypeScriptSetup
pub mod TypeScript
pub mod JavaSetup
pub mod Java
use bmk_dev.Base.{ℕ, Bool, true, false, none, some, Option, List, String}
use bmk_dev.Base.Text.{Text}
use bmk_dev.Base.Dict.{Dict}

-- One shell command of the preparation of a container.
pub record Step : Type 0 where
  pub command : Text
  pub timeout : ℕ
  pub required : Bool
  pub capture : Bool

-- A step with the defaults of its fields.
abbrev pub step_of : Text → Step
step_of command = record { command = command; timeout = 300; required = false; capture = false }

-- The command of one batch, and where its report lands.
pub record Batch : Type 0 where
  pub command : Text
  pub report : Option Text

-- Where things lie in the container, and on the host.
pub record Env (Host : Type 0) : Type 0 where
  pub workspace : Text
  pub oracle : Text
  pub extra_requirements : Option Text
  pub target_modules : List Text
  pub shadowing : List Text
  pub workspace_host : Option Host
  pub oracle_host : Option Host

-- What decoding a report gives: the `ValueError`, a value of another shape, on which a method that is
-- called raises, or what is read of it.
pub data Loaded (A : Type 0) : Type 0 where
  not_json : Loaded A
  other_shape : Loaded A
  decoded : A → Loaded A

pub record Runner (Host : Type 0) : Type 0 where
  pub discover : Host → Text → List Text
  pub setup : Env Host → List Step
  pub batch : Text → List Text → ℕ → ℕ → Batch
  -- the report and the output; `none` is an exception, and `some none` that the batch has no usable
  -- report
  pub outcomes : Text → Text → Option (Option (Dict Text String))
  pub function_of : Text → Text
  pub synthetic_id : Text → Text
  pub dependencies : Host → Dict Text (List Text)
  pub provenance : Env Host → Option Text
