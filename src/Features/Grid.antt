-- ===== src/Features/Grid.antt =====
-- crates/cockpitctl-feature-grid/src/lib.rs: which features are present for which arguments.
use Prim.Native.Char.{code}
use Prim.Native.String.{[] as nil, ◌∷◌ as cons}
use cockpitctl.Base.{
  ◌≡◌, ◌+◌, String, Bool, true, false, not, ◌&&◌, ◌||◌, arith, leb, ◌==◌, str_eq, Option, none,
  some, List, [], ◌∷◌, any, map, if◌then◌else◌,
}
use cockpitctl.Features.{
  Feature, hooks, buildfix, policy_signing, Build, is_available, disable_flag, from_args,
  is_enabled,
}
use cockpitctl.Features.Enabled.{from_args-is_enabled}

pub data FeatureGridState : Type 0 where
  present absent : FeatureGridState

unfoldable pub is_present : FeatureGridState → Bool
is_present present = true
is_present absent = false

pub record FeatureGridCase : Type 0 where
  pub feature : Feature
  pub args : List String
  pub expected : FeatureGridState

abbrev pub feature_toggle_grid : List FeatureGridCase
feature_toggle_grid =
    record { feature = hooks; args = []; expected = present }
    ∷ record { feature = hooks; args = "--disable-hooks" ∷ []; expected = absent }
    ∷ record { feature = buildfix; args = []; expected = present }
    ∷ record { feature = buildfix; args = "--disable-buildfix" ∷ []; expected = absent }
    ∷ record { feature = policy_signing; args = []; expected = present }
    ∷ record { feature = policy_signing; args = "--disable-policy-signing" ∷ []; expected = absent }
    ∷ []

unfoldable pub feature_runtime_present : Build → Feature → List String → Bool
unfolding is_available disable_flag
feature_runtime_present b feature cli_args =
    if not (is_available b feature)
    then false
    else not (any (λ arg. str_eq arg (disable_flag feature)) cli_args)

-- `==` on the Booleans
abbrev pub same : Bool → Bool → Bool
same true c = c
same false c = not c

unfoldable pub expected_present : Build → FeatureGridCase → List String → Bool
unfolding feature_runtime_present is_present
expected_present b c cli_args =
    same (is_present c.expected) (feature_runtime_present b c.feature cli_args)

unfoldable pub matches_row : Build → FeatureGridCase → List String → Bool
unfolding expected_present
matches_row b c cli_args = expected_present b c cli_args

-- `s.to_ascii_lowercase() == word`
lowercase_is : String → String → Bool
lowercase_is nil nil = true
lowercase_is nil (cons d t) = false
lowercase_is (cons c s) nil = false
lowercase_is (cons c s) (cons d t) =
    (if leb b'A' (code c) && leb (code c) b'Z' then code c + 32 else code c) == code d
    && lowercase_is s t

unfoldable pub parse_feature_state : String → Option Bool
unfolding lowercase_is
parse_feature_state token =
    if lowercase_is token "present" || lowercase_is token "enabled" || lowercase_is token "on"
    then some true
    else if lowercase_is token "absent" || lowercase_is token "disabled" || lowercase_is token "off"
    then some false
    else none

-- A feature is present for the grid exactly if the command line enables it, from the same build and
-- the same arguments.
pub feature_runtime_present-is_enabled :
    (b : Build) (feature : Feature) (cli_args : List String)
    → feature_runtime_present b feature cli_args
      ≡ is_enabled
          (from_args b.feature_hooks b.feature_buildfix b.feature_policy_signing cli_args)
          feature
unfolding feature_runtime_present
feature_runtime_present-is_enabled b feature cli_args =
    ground (arith, from_args-is_enabled b cli_args feature)

-- With its own arguments a row of the grid matches, in every build that has the row's feature; in a
-- build without it, the rows that expect the feature to be absent match, and no others.
pub feature_toggle_grid-matches_row :
    (b : Build)
    → map (λ (c : FeatureGridCase). matches_row b c c.args) feature_toggle_grid
      ≡ map
          (λ (c : FeatureGridCase). is_available b c.feature || not (is_present c.expected))
          feature_toggle_grid
unfolding matches_row expected_present feature_runtime_present is_available disable_flag is_present
feature_toggle_grid-matches_row b = ground arith
