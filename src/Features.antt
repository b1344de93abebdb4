-- ===== src/Features.antt =====
-- crates/cockpitctl-feature-state/src/lib.rs: the features that can be compiled in and switched off.
pub mod Names
pub mod Enabled
pub mod Grid
use cockpitctl.Base.{
  String, Bool, ◌&&◌, not, Option, none, some, List, [], ◌∷◌, any, str_eq, if◌then◌else◌,
}

pub data Feature : Type 0 where
  hooks buildfix policy_signing : Feature

pub record FeatureContract : Type 0 where
  pub feature : Feature
  pub name : String
  pub disable_flag : String
  pub comment_marker : Option String
  pub report_data_key : Option String
  pub sidecar_file : Option String

abbrev pub all_features : List Feature
all_features = hooks ∷ buildfix ∷ policy_signing ∷ []

unfoldable pub as_str : Feature → String
as_str hooks = "hooks"
as_str buildfix = "buildfix"
as_str policy_signing = "policy-signing"

unfoldable pub disable_flag : Feature → String
disable_flag hooks = "--disable-hooks"
disable_flag buildfix = "--disable-buildfix"
disable_flag policy_signing = "--disable-policy-signing"

-- What the build compiled in: `cfg!(feature = "...")` of each feature.
pub record Build : Type 0 where
  pub feature_hooks : Bool
  pub feature_buildfix : Bool
  pub feature_policy_signing : Bool

unfoldable pub is_available : Build → Feature → Bool
is_available b hooks = b.feature_hooks
is_available b buildfix = b.feature_buildfix
is_available b policy_signing = b.feature_policy_signing

unfoldable pub contract : Feature → FeatureContract
contract hooks = record {
  feature = hooks;
  name = "hooks";
  disable_flag = "--disable-hooks";
  comment_marker = some "### Hook Notes";
  report_data_key = none;
  sidecar_file = none;
}
contract buildfix = record {
  feature = buildfix;
  name = "buildfix";
  disable_flag = "--disable-buildfix";
  comment_marker = some "### Buildfix";
  report_data_key = some "_buildfix";
  sidecar_file = some "buildfix.apply.json";
}
contract policy_signing = record {
  feature = policy_signing;
  name = "policy-signing";
  disable_flag = "--disable-policy-signing";
  comment_marker = some "### Policy Signature";
  report_data_key = some "_policy_signature";
  sidecar_file = some "policy.signature.json";
}

unfoldable pub from_name : String → Option Feature
from_name name =
    if str_eq name "hooks"
    then some hooks
    else if str_eq name "buildfix"
    then some buildfix
    else if str_eq name "policy-signing"
    then some policy_signing
    else none

pub record RuntimeFeatureState : Type 0 where
  pub hooks : Bool
  pub buildfix : Bool
  pub policy_signing : Bool

unfoldable pub from_disable_flags :
    (hooks_compiled hooks_disabled buildfix_compiled buildfix_disabled : Bool)
    (policy_signing_compiled policy_signing_disabled : Bool)
    → RuntimeFeatureState
from_disable_flags hc hd bc bd pc pd = record {
  hooks = hc && not hd;
  buildfix = bc && not bd;
  policy_signing = pc && not pd;
}

pub has_arg : List String → String → Bool
has_arg args flag = any (λ arg. str_eq arg flag) args

unfoldable pub from_args : Bool → Bool → Bool → List String → RuntimeFeatureState
unfolding from_disable_flags has_arg disable_flag
from_args hooks_compiled buildfix_compiled policy_signing_compiled args =
    from_disable_flags hooks_compiled (has_arg args (disable_flag hooks)) buildfix_compiled
      (has_arg args (disable_flag buildfix)) policy_signing_compiled
      (has_arg args (disable_flag policy_signing))

unfoldable pub is_enabled : RuntimeFeatureState → Feature → Bool
is_enabled s hooks = s.hooks
is_enabled s buildfix = s.buildfix
is_enabled s policy_signing = s.policy_signing
