-- ===== src/Tests/Features.antt =====
-- Names and flags of features, and ids of sensors.
use cockpitctl.Base.{String, true, List, [], ◌∷◌}
use cockpitctl.Features.{Build}

abbrev full_build : Build
full_build = record { feature_hooks = true; feature_buildfix = true; feature_policy_signing = true }

abbrev args : List String
args = "ingest" ∷ "--disable-hooks" ∷ []
