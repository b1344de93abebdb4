-- ===== src/Types/Enums.antt =====
-- crates/cockpitctl-types/src/lib.rs: the enumerations.

pub data VerdictStatus : Type 0 where
  pass warn fail skip : VerdictStatus

pub data Severity : Type 0 where
  info warn error : Severity

pub data CapabilityStatus : Type 0 where
  available unavailable skipped : CapabilityStatus

pub data MissingPolicy : Type 0 where
  skip warn fail : MissingPolicy

pub data Presence : Type 0 where
  present missing invalid : Presence

pub data PolicyOutcome : Type 0 where
  blocked allowed informational : PolicyOutcome

pub data SchemaValidation : Type 0 where
  lax strict : SchemaValidation

pub data SafetyLevel : Type 0 where
  safe guarded unsafe : SafetyLevel

pub data BuildfixApplyStatus : Type 0 where
  skipped applied failed : BuildfixApplyStatus

pub data PolicySignatureAlgorithm : Type 0 where
  hmac_sha256 : PolicySignatureAlgorithm

pub data HookWhen : Type 0 where
  after_ingest : HookWhen

pub data TrendChange : Type 0 where
  new fixed : TrendChange
