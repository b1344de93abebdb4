-- ===== src/Types/Hints.antt =====
-- crates/cockpitctl-types/src/lib.rs: promotion hints and the signature evidence.
use Prim.Native.String.{String}
use mathlib.Core.Option.{Option}
use mathlib.Core.List.{List}
use cockpitctl.Types.Enums.{Severity, PolicySignatureAlgorithm}

pub record PromoteCard : Type 0 where
  pub id : String
  pub label : String
  pub value : String
  pub severity : Option Severity

pub record SuggestedHighlight : Type 0 where
  pub finding_fingerprint : String

pub record SuggestedArtifact : Type 0 where
  pub artifact_id : String

pub record CockpitPromoteHints : Type 0 where
  pub schema : Option String
  pub cards : List PromoteCard
  pub suggested_highlights : List SuggestedHighlight
  pub suggested_artifacts : List SuggestedArtifact

pub record PolicySignatureEvidence : Type 0 where
  pub schema : String
  pub algorithm : PolicySignatureAlgorithm
  pub policy_sha256 : String
  pub signature : String
  pub key_id : Option String
