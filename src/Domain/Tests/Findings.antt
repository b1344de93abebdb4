-- ===== src/Domain/Tests/Findings.antt =====
-- Sorting, capping and counting two findings.
use mathlib.Core.List.{mem-cons_self}
use mathlib.Core.List.Perm
use mathlib.Core.Logic.{◌∨₁◌}
use cockpitctl.Base.{◌≡◌, length, ◌≤◌, ◌<◌, List, [], ◌∷◌, Mem, Perm}
use cockpitctl.Types.Enums.{Severity}
use cockpitctl.Types.Findings.{Finding}
use cockpitctl.Types.Ranks.{severity_rank}
use cockpitctl.Domain.Findings.{cap_findings, sort_findings}
use cockpitctl.Domain.Findings.Surfaced.{surfaced-severest}
use cockpitctl.Domain.Samples.{V₀, finding_a, finding_b, two_findings}

abbrev reversed : List (Finding V₀)
reversed = finding_b ∷ finding_a ∷ []

abbrev first : List (Finding V₀) → List (Finding V₀)
first l = (cap_findings (sort_findings "lint" l) 1).0

swapped : Perm two_findings reversed
swapped = Perm.swap finding_b finding_a []

surfaced-severest_example :
    Mem finding_a (first two_findings)
    ∨₁ ((1 < 2)
        × (length (first two_findings) ≡ 1)
        × ((g : Finding V₀)
            → Mem g (first two_findings)
            → severity_rank g.severity ≤ severity_rank Severity.warn))
surfaced-severest_example = surfaced-severest "lint" two_findings 1 finding_a mem-cons_self
