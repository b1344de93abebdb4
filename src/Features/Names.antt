-- ===== src/Features/Names.antt =====
-- The names of the features of crates/cockpitctl-feature-state/src/lib.rs, and their contracts.
use cockpitctl.Base.{
  ◌≡◌, refl, ◌↔◌, String, Option, none, some, str_eq, eq_iff, arith, subst, ap, if◌then◌else◌,
}
use cockpitctl.Features.{
  Feature, hooks, buildfix, policy_signing, contract, as_str, disable_flag, from_name,
}

from_name_sound : (name : String) (f : Feature) → from_name name ≡ some f → as_str f ≡ name
unfolding from_name as_str
from_name_sound name f h = grind (arith, eq_iff)

from_name_complete : (f : Feature) → from_name (as_str f) ≡ some f
unfolding from_name as_str
from_name_complete hooks = refl
from_name_complete buildfix = refl
from_name_complete policy_signing = refl

-- A name is parsed to a feature exactly if it is the name that the feature prints.
pub from_name-as_str : (name : String) (f : Feature) → (from_name name ≡ some f) ↔ (as_str f ≡ name)
from_name-as_str name f =
    (from_name_sound name f, λ e. subst (λ n. from_name n ≡ some f) e (from_name_complete f))

feature_of_flag : String → Option Feature
feature_of_flag flag =
    if str_eq flag "--disable-hooks"
    then some hooks
    else if str_eq flag "--disable-buildfix"
    then some buildfix
    else if str_eq flag "--disable-policy-signing"
    then some policy_signing
    else none

feature_of_flag-disable_flag : (f : Feature) → feature_of_flag (disable_flag f) ≡ some f
unfolding feature_of_flag disable_flag
feature_of_flag-disable_flag hooks = refl
feature_of_flag-disable_flag buildfix = refl
feature_of_flag-disable_flag policy_signing = refl

disable_flag-injective : (f g : Feature) → disable_flag f ≡ disable_flag g → f ≡ g
disable_flag-injective f g e =
    let e' = ap feature_of_flag e in
    cc (feature_of_flag-disable_flag f, feature_of_flag-disable_flag g)

-- The contract of a feature has its name and its flag, and features differ in their flags.
pub contract-disable_flag :
    (f g : Feature)
    → ((contract f).feature ≡ f)
      × ((contract f).name ≡ as_str f)
      × ((contract f).disable_flag ≡ disable_flag f)
      × (disable_flag f ≡ disable_flag g → f ≡ g)
unfolding contract as_str disable_flag
contract-disable_flag f g = ground (arith, disable_flag-injective f g)
