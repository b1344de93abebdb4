-- ===== src/Types/Run.antt =====
-- crates/cockpitctl-types/src/lib.rs: who made a report, and in which run.
use Prim.Native.Nat.{ℕ}
use Prim.Native.String.{String}
use mathlib.Core.Option.{Option}
use cockpitctl.Base.Map.{BTreeMap}
use cockpitctl.Types.Enums.{CapabilityStatus}

pub record ToolInfo : Type 0 where
  pub name : String
  pub version : String
  pub commit : Option String

pub record HostInfo : Type 0 where
  pub os : Option String
  pub arch : Option String
  pub hostname : Option String

pub record GitInfo : Type 0 where
  pub repo : Option String
  pub base_ref : Option String
  pub head_ref : Option String
  pub base_sha : Option String
  pub head_sha : Option String
  pub merge_base : Option String

pub record CiInfo : Type 0 where
  pub provider : Option String
  pub run_id : Option String
  pub run_url : Option String
  pub job : Option String

pub record Capability : Type 0 where
  pub status : CapabilityStatus
  pub reason : Option String

pub record RunInfo : Type 0 where
  pub started_at : String
  pub ended_at : Option String
  pub duration_ms : Option ℕ
  pub host : Option HostInfo
  pub git : Option GitInfo
  pub ci : Option CiInfo
  pub capabilities : BTreeMap String Capability
