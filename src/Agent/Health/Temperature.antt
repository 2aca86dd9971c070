-- ===== src/Agent/Health/Temperature.antt =====
-- classifyTemperatureComponent of health.go: the component that a sensor measures.
use server_status.Base.{List, [], ◌∷◌, ◌++◌, Bool, true, false, ◌||◌, if◌then◌else◌, ◌≡◌, refl}
use server_status.Base.Text.{Text, codes, contains, contains_text, to_lower}
use server_status.Report.Measurements.Rules.{components}

abbrev cpu_tokens : List Text
cpu_tokens =
    codes "coretemp"
    ∷ codes "k10temp"
    ∷ codes "zenpower"
    ∷ codes "cpu_thermal"
    ∷ codes "package id"
    ∷ codes "tctl"
    ∷ codes "tdie"
    ∷ codes "cpu temp"
    ∷ codes "cpu temperature"
    ∷ []

abbrev gpu_tokens : List Text
gpu_tokens = codes "amdgpu" ∷ codes "radeon" ∷ codes "nouveau" ∷ codes "gpu" ∷ []

abbrev storage_tokens : List Text
storage_tokens = codes "nvme" ∷ codes "drivetemp" ∷ codes "hdd" ∷ codes "ssd" ∷ []

abbrev motherboard_tokens : List Text
motherboard_tokens =
    codes "acpitz"
    ∷ codes "nct"
    ∷ codes "it87"
    ∷ codes "pch"
    ∷ codes "system"
    ∷ codes "motherboard"
    ∷ codes "mainboard"
    ∷ codes "systin"
    ∷ []

-- A loop over tokens.
unfoldable pub has_token : Text → List Text → Bool
has_token value [] = false
has_token value (token ∷ tokens) = contains_text value token || has_token value tokens

unfoldable pub classify_temperature_component : Text → Text → Text
unfolding has_token
classify_temperature_component chip_name label =
    let value = to_lower (chip_name ++ codes " " ++ label) in
    if has_token value cpu_tokens
    then codes "cpu"
    else if has_token value gpu_tokens
    then codes "gpu"
    else if has_token value storage_tokens
    then codes "storage"
    else if has_token value motherboard_tokens
    then codes "motherboard"
    else codes "other"

-- The component of a sensor is one that the server accepts.
pub classify_temperature_component-accepted :
    (chip_name label : Text)
    → contains components (classify_temperature_component chip_name label) ≡ true
unfolding classify_temperature_component contains
classify_temperature_component-accepted chip_name label =
    let value = to_lower (chip_name ++ codes " " ++ label) in
    pick (has_token value cpu_tokens) (has_token value gpu_tokens) (has_token value storage_tokens)
      (has_token value motherboard_tokens)
  where
    pick :
        (a b c d : Bool)
        → contains components (
            if a
            then codes "cpu"
            else if b
            then codes "gpu"
            else if c
            then codes "storage"
            else if d
            then codes "motherboard"
            else codes "other")
          ≡ true
    pick true b c d = refl
    pick false true c d = refl
    pick false false true d = refl
    pick false false false true = refl
    pick false false false false = refl
