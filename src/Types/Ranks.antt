-- ===== src/Types/Ranks.antt =====
-- crates/cockpitctl-types/src/lib.rs: the ranks by which findings, verdicts and fixes are ordered,
-- the derived equality of the types that are compared, and the sort key of a finding.
use cockpitctl.Base.{
  ℕ, String, ◌≡◌, Bool, true, false, ◌&&◌, arith, ◌==◌, compare, string_compare, Cmp, on, lex,
  IsOrder, IsOrder-on, IsOrder-lex, compare-IsOrder, string_compare-IsOrder, IsAntisym,
  string_compare-IsAntisym,
}
use cockpitctl.Types.Enums.{Severity, VerdictStatus, SafetyLevel}
use cockpitctl.Types.Findings.{VerdictCounts}

unfoldable pub severity_rank : Severity → ℕ
severity_rank Severity.error = 0
severity_rank Severity.warn = 1
severity_rank Severity.info = 2

unfoldable pub verdict_status_rank : VerdictStatus → ℕ
verdict_status_rank VerdictStatus.fail = 0
verdict_status_rank VerdictStatus.warn = 1
verdict_status_rank VerdictStatus.pass = 2
verdict_status_rank VerdictStatus.skip = 3

unfoldable pub safety_level_rank : SafetyLevel → ℕ
safety_level_rank SafetyLevel.safe = 0
safety_level_rank SafetyLevel.guarded = 1
safety_level_rank SafetyLevel.unsafe = 2

-- `==` on `VerdictStatus`
abbrev pub status_eq : VerdictStatus → VerdictStatus → Bool
status_eq VerdictStatus.pass VerdictStatus.pass = true
status_eq VerdictStatus.warn VerdictStatus.warn = true
status_eq VerdictStatus.fail VerdictStatus.fail = true
status_eq VerdictStatus.skip VerdictStatus.skip = true
status_eq _ _ = false

-- `==` on `VerdictCounts`
abbrev pub counts_eq : VerdictCounts → VerdictCounts → Bool
counts_eq a b =
    a.info == b.info && a.warn == b.warn && a.error == b.error && a.suppressed == b.suppressed

pub record FindingSortKey : Type 0 where
  pub severity_rank : ℕ
  pub sensor_id : String
  pub path : String
  pub line : ℕ
  pub code : String
  pub message : String

-- The derived `Ord`: field by field.
abbrev pub sort_key_cmp : Cmp FindingSortKey
sort_key_cmp = lex (on (λ k. k.severity_rank) compare) (
    lex (on (λ k. k.sensor_id) string_compare) (
      lex (on (λ k. k.path) string_compare) (
        lex (on (λ k. k.line) compare)
          (lex (on (λ k. k.code) string_compare) (on (λ k. k.message) string_compare)))))

pub sort_key_cmp-IsOrder : IsOrder sort_key_cmp
sort_key_cmp-IsOrder =
    IsOrder-lex (IsOrder-on (λ (k : FindingSortKey). k.severity_rank) compare-IsOrder) (
      IsOrder-lex (IsOrder-on (λ (k : FindingSortKey). k.sensor_id) string_compare-IsOrder) (
        IsOrder-lex (IsOrder-on (λ (k : FindingSortKey). k.path) string_compare-IsOrder) (
          IsOrder-lex (IsOrder-on (λ (k : FindingSortKey). k.line) compare-IsOrder) (
            IsOrder-lex (IsOrder-on (λ (k : FindingSortKey). k.code) string_compare-IsOrder)
              (IsOrder-on (λ (k : FindingSortKey). k.message) string_compare-IsOrder)))))

pub sort_key_cmp-IsAntisym : IsAntisym sort_key_cmp
sort_key_cmp-IsAntisym a b h = ground (
  arith,
  string_compare-IsAntisym a.sensor_id b.sensor_id,
  string_compare-IsAntisym a.path b.path,
  string_compare-IsAntisym a.code b.code,
  string_compare-IsAntisym a.message b.message,
)

pub severity_rank-injective : (a b : Severity) → severity_rank a ≡ severity_rank b → a ≡ b
unfolding severity_rank
severity_rank-injective a b h = ground arith

pub verdict_status_rank-injective :
    (a b : VerdictStatus) → verdict_status_rank a ≡ verdict_status_rank b → a ≡ b
unfolding verdict_status_rank
verdict_status_rank-injective a b h = ground arith
