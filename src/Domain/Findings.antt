-- ===== src/Domain/Findings.antt =====
-- The findings of one sensor, in crates/cockpitctl-domain/src/lib.rs: `cap_findings`,
-- `derive_fingerprint`, `finding_sort_key` and `sort_findings`.
pub mod Surfaced
use mathlib.Core.Option.{get_or}
use cockpitctl.Base.{
  ℕ, String, Bool, true, false, Option, none, some, List, [], ◌∷◌, ◌++◌, leb, length, take, concat,
  to_string, u32_max, Cmp, IsOrder, IsOrder-on, on, sort_by, if◌then◌else◌,
}
use cockpitctl.Types.Findings.{Location, Finding}
use cockpitctl.Types.Ranks.{severity_rank, FindingSortKey, sort_key_cmp, sort_key_cmp-IsOrder}

-- `loc.path.clone().unwrap_or_default()`, and the empty text with no location
abbrev pub path_or_empty : Option Location → String
path_or_empty none = ""
path_or_empty (some loc) = get_or loc.path ""

-- `loc.line.unwrap_or(u32::MAX)`, and `u32::MAX` with no location
abbrev pub line_or_max : Option Location → ℕ
line_or_max none = u32_max
line_or_max (some loc) = get_or loc.line u32_max

-- What of the location goes into the hash.
location_lines : Option Location → List String
location_lines none = []
location_lines (some loc) =
    elim loc.path [ none ↦ [] | some path ↦ path ∷ "\n" ∷ [] ]
    ++ elim loc.line [ none ↦ [] | some line ↦ to_string line ∷ "\n" ∷ [] ]

module _ {V : Type 0} where
  unfoldable pub cap_findings : List (Finding V) → ℕ → List (Finding V) × Bool
  cap_findings findings max =
      if leb (length findings) max then (findings, false) else (take max findings, true)

  -- `sha256_hex` is `hex::encode` of the SHA-256 digest of the text's bytes.
  unfoldable pub derive_fingerprint : (sha256_hex : String → String) → String → Finding V → String
  unfolding location_lines
  derive_fingerprint sha256_hex sensor_id finding = sha256_hex (
      concat (
        sensor_id
        ∷ "\n"
        ∷ finding.code
        ∷ "\n"
        ∷ finding.message
        ∷ "\n"
        ∷ location_lines finding.location))

  unfoldable pub finding_sort_key : String → Finding V → FindingSortKey
  finding_sort_key sensor_id f = record {
    severity_rank = severity_rank f.severity;
    sensor_id = sensor_id;
    path = path_or_empty f.location;
    line = line_or_max f.location;
    code = f.code;
    message = f.message;
  }

  abbrev pub finding_cmp : String → Cmp (Finding V)
  finding_cmp sensor_id = on (finding_sort_key sensor_id) sort_key_cmp

  pub finding_cmp-IsOrder : (sensor_id : String) → IsOrder (finding_cmp sensor_id)
  finding_cmp-IsOrder sensor_id = IsOrder-on (finding_sort_key sensor_id) sort_key_cmp-IsOrder

  unfoldable pub sort_findings : String → List (Finding V) → List (Finding V)
  sort_findings sensor_id findings = sort_by (finding_cmp sensor_id) findings
