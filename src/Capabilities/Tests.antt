-- ===== src/Capabilities/Tests.antt =====
-- The theorems of the enforcer at concrete inputs.
use secu_scan.Prelude.{◌≡◌, ◌↔◌, true, some, List, [], ◌∷◌, All, Text, codes}
use secu_scan.Capabilities.{passed, check, build, known}
use secu_scan.Capabilities.Building.{build_exact, IsRecognised, meant}
use secu_scan.Capabilities.Exact.{is_permitted, check_passes}

abbrev network : Text
network = codes "network"

abbrev docker : Text
docker = codes "docker"

abbrev safe : Text
safe = codes "safe"

check_passes_example :
    (check [] (some (network ∷ [])) safe ≡ passed)
    × ((d : Text)
        → (check (d ∷ []) (some (network ∷ [])) safe ≡ passed)
          ↔ (is_permitted (d ∷ []) (some (network ∷ [])) safe ≡ true))
check_passes_example = check_passes [] (some (network ∷ [])) safe

abbrev listed : List Text
listed = codes " Docker " ∷ codes "" ∷ []

build_exact_example :
    (All IsRecognised listed → build (some listed) ≡ known (meant listed))
    × (build (some listed) ≡ known (docker ∷ [])
        → All IsRecognised listed × ((docker ∷ []) ≡ meant listed))
build_exact_example = build_exact listed (docker ∷ [])
