-- ===== src/Logging.antt =====
-- The levels of the log, src/logging.rs. The settings of the build, among them the text of
-- sdkconfig.defaults, are arguments; what is set is the list of the levels given to the platform.
pub mod Levels
use rust_gps_ntp.Common.{
  ℕ, ◌+◌, Bool, true, false, Option, none, some, List, [], ◌∷◌, ◌++◌, ◌||◌, ◌&&◌, leb, ◌==◌, map,
  reverse, if◌then◌else◌, ◌>>=◌,
}
use rust_gps_ntp.Ntp.Packet.{codes}
use rust_gps_ntp.Protection.Cidr.{Text, is_empty, split, split_once, trim}
use rust_gps_ntp.Gps.Uart.{trim_start_matches, trim_end_matches}
use rust_gps_ntp.SdLog.Http.{eq_text}

pub data EspLogLevel : Type 0 where
  none_level error warn info debug verbose : EspLogLevel

-- `to_ascii_lowercase` of a character.
abbrev pub lower : ℕ → ℕ
lower c = if leb b'A' c && leb c b'Z' then c + 32 else c

abbrev pub level_named : Text → Option EspLogLevel
level_named s =
    if eq_text s (codes "none")
    then some none_level
    else if eq_text s (codes "error")
    then some error
    else if eq_text s (codes "warn") || eq_text s (codes "warning")
    then some warn
    else if eq_text s (codes "info")
    then some info
    else if eq_text s (codes "debug")
    then some debug
    else if eq_text s (codes "trace") || eq_text s (codes "verbose")
    then some verbose
    else none

unfoldable pub parse_level : Text → Option EspLogLevel
unfolding trim
parse_level value = level_named (map lower (trim value))

-- What a line gives for a key: a blank line, a comment and a line without `=` give nothing.
abbrev pub value_if : Text → Option (Text × Text) → Option Text
value_if key none = none
value_if key (some (lhs, rhs)) =
    if eq_text (trim lhs) key
    then some (trim_end_matches 34 (trim_start_matches 34 (trim rhs)))
    else none

abbrev pub is_comment : Text → Bool
is_comment [] = true
is_comment (c ∷ _) = c == b'#'

unfoldable pub value_in_line : Text → Text → Option Text
unfolding trim split_once trim_end_matches
value_in_line key raw_line =
    if is_comment (trim raw_line) then none else value_if key (split_once b'=' (trim raw_line))

-- The first line that gives a value.
unfoldable pub first_value : Text → List Text → Option Text
unfolding value_in_line
first_value key [] = none
first_value key (l ∷ ls) = elim (value_in_line key l) [
  | some value ↦ some value
  | none ↦ first_value key ls
]

-- `defaults` are the lines of the file.
unfoldable pub level_from_sdkconfig_defaults : List Text → Text → Option Text
unfolding first_value
level_from_sdkconfig_defaults defaults key = first_value key defaults

abbrev pub or_default : Option Text → Option Text → Option Text
or_default (some raw) default = some raw
or_default none default = default

unfoldable pub level_from_key : List Text → Text → Option Text → Option EspLogLevel
unfolding level_from_sdkconfig_defaults parse_level
level_from_key defaults key build_env_value =
    or_default build_env_value (level_from_sdkconfig_defaults defaults key) >>= parse_level

abbrev pub is_truthy : Option Text → Bool
is_truthy none = false
is_truthy (some s) =
    eq_text s (codes "y")
    || eq_text s (codes "1")
    || eq_text s (codes "true")
    || eq_text s (codes "yes")

unfoldable pub sdkconfig_flag_enabled : List Text → Text → Bool
unfolding level_from_sdkconfig_defaults
sdkconfig_flag_enabled defaults key = is_truthy (level_from_sdkconfig_defaults defaults key)

unfoldable pub global_default_level : List Text → EspLogLevel
unfolding sdkconfig_flag_enabled
global_default_level defaults =
    if sdkconfig_flag_enabled defaults (codes "CONFIG_LOG_DEFAULT_LEVEL_VERBOSE")
    then verbose
    else if sdkconfig_flag_enabled defaults (codes "CONFIG_LOG_DEFAULT_LEVEL_DEBUG")
    then debug
    else if sdkconfig_flag_enabled defaults (codes "CONFIG_LOG_DEFAULT_LEVEL_INFO")
    then info
    else if sdkconfig_flag_enabled defaults (codes "CONFIG_LOG_DEFAULT_LEVEL_WARN")
    then warn
    else if sdkconfig_flag_enabled defaults (codes "CONFIG_LOG_DEFAULT_LEVEL_ERROR")
    then error
    else if sdkconfig_flag_enabled defaults (codes "CONFIG_LOG_DEFAULT_LEVEL_NONE")
    then none_level
    else info

abbrev pub shows_debug : EspLogLevel → Bool
shows_debug debug = true
shows_debug verbose = true
shows_debug none_level = false
shows_debug error = false
shows_debug warn = false
shows_debug info = false

abbrev pub or_level : Option EspLogLevel → EspLogLevel → EspLogLevel
or_level none default = default
or_level (some level) default = level

unfoldable pub display_boot_test_enabled : List Text → Option Text → Bool
unfolding level_from_key global_default_level
display_boot_test_enabled defaults build_env_value = shows_debug (
    or_level (level_from_key defaults (codes "LOG_DISPLAY_LEVEL") build_env_value)
      (global_default_level defaults))

-- The level that is set for a tag, if there is a valid one.
abbrev pub level_set : Text → Option EspLogLevel → List (Text × EspLogLevel)
level_set tag none = []
level_set tag (some level) = (tag, level) ∷ []

unfoldable pub set_level_from_key :
    List Text → Text → Text → Option Text → List (Text × EspLogLevel)
unfolding level_from_key
set_level_from_key defaults tag key build_env_value =
    level_set tag (level_from_key defaults key build_env_value)

-- The settings of the build for the six keys, by the key.
unfoldable pub init_levels : List Text → (Text → Option Text) → List (Text × EspLogLevel)
unfolding set_level_from_key
init_levels defaults env =
    let set = λ (tag key : Text). set_level_from_key defaults tag key (env key) in
    set (codes "rust_gps_ntp::wifi") (codes "LOG_WIFI_LEVEL")
    ++ (set (codes "rust_gps_ntp::gps") (codes "LOG_GPS_LEVEL")
        ++ (set (codes "rust_gps_ntp::display") (codes "LOG_DISPLAY_LEVEL")
            ++ (set (codes "rust_gps_ntp::battery") (codes "LOG_BATTERY_LEVEL")
                ++ (set (codes "rust_gps_ntp::ntp") (codes "LOG_NTP_LEVEL")
                    ++ set (codes "rust_gps_ntp") (codes "LOG_PPS_LEVEL")))))
