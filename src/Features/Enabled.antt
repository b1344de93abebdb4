-- ===== src/Features/Enabled.antt =====
-- The features that a run enables, in crates/cockpitctl-feature-state/src/lib.rs.
use cockpitctl.Base.{◌≡◌, refl, String, ◌&&◌, not, List, any, str_eq}
use cockpitctl.Features.{
  Feature, Build, is_available, disable_flag, has_arg, from_args, from_disable_flags, is_enabled,
}

-- A feature is enabled exactly if the build has it and its flag is not among the arguments; the
-- flags of the other features have no effect on it.
pub from_args-is_enabled :
    (b : Build) (args : List String) (f : Feature)
    → is_enabled (from_args b.feature_hooks b.feature_buildfix b.feature_policy_signing args) f
      ≡ (is_available b f && not (any (λ arg. str_eq arg (disable_flag f)) args))
unfolding from_args is_enabled is_available from_disable_flags disable_flag has_arg
from_args-is_enabled b args Feature.hooks = refl
from_args-is_enabled b args Feature.buildfix = refl
from_args-is_enabled b args Feature.policy_signing = refl
