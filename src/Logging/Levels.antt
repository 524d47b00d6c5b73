-- ===== src/Logging/Levels.antt =====
-- Which level a setting gives, src/logging.rs.
use rust_gps_ntp.Common.{◌≡◌, refl, none, some, List, [], ◌∷◌, ◌++◌, All}
use rust_gps_ntp.Protection.Cidr.{Text}
use rust_gps_ntp.Logging.{first_value, value_in_line, level_from_sdkconfig_defaults}

-- Lines that give no value for the key, such as comments, lines without `=` and lines of other keys,
-- hide nothing that comes later, and of two lines for the key the first counts.
pub level_from_sdkconfig_defaults-first :
    (before rest : List Text) (line key value : Text)
    → All (λ l. value_in_line key l ≡ none) before
    → value_in_line key line ≡ some value
    → level_from_sdkconfig_defaults (before ++ (line ∷ rest)) key ≡ some value
unfolding level_from_sdkconfig_defaults first_value
level_from_sdkconfig_defaults-first [] rest line key value h e = rw (e, first_value) refl
level_from_sdkconfig_defaults-first (l ∷ before) rest line key value h e =
    rw (h.0, first_value) (level_from_sdkconfig_defaults-first before rest line key value h.1 e)
