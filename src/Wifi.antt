-- ===== src/Wifi.antt =====
-- The Wi-Fi station, src/wifi.rs. The settings of the build and what the driver's calls answer are
-- arguments; of an error only that it happens is kept.
pub mod Security
use rust_gps_ntp.Common.{
  ℕ, Bool, true, false, Option, none, some, List, [], ◌∷◌, ◌&&◌, not, if◌then◌else◌, ◌>>=◌, ◌>>◌,
  ensure,
}
use rust_gps_ntp.Ntp.Packet.{codes}
use rust_gps_ntp.Protection.Cidr.{Text, trim, is_empty}

pub record NetworkSnapshot : Type 0 where
  pub ip : Text
  pub gateway : Text
  pub hostname : Text
  pub ssid : Text

-- A setting of the build, without the space around it, if anything is left.
unfoldable pub setting : Option Text → Option Text
unfolding trim
setting value = do text ← value; ensure (not (is_empty (trim text))); some (trim text)

abbrev pub or_na : Option Text → Text
or_na none = codes "n/a"
or_na (some text) = text

unfoldable pub compile_time_ssid : Option Text → Text
unfolding setting
compile_time_ssid wifi_ssid = or_na (setting wifi_ssid)

unfoldable pub default_network : Text → Option Text → NetworkSnapshot
unfolding compile_time_ssid
default_network hostname wifi_ssid = record {
  ip = codes "n/a";
  gateway = codes "n/a";
  hostname = hostname;
  ssid = compile_time_ssid wifi_ssid;
}

-- The lock is tried; the addresses are those that the interface has, if it has any.
abbrev pub with_addresses : Option (Text × Text) → NetworkSnapshot → NetworkSnapshot
with_addresses none snap = snap
with_addresses (some (ip, gateway)) snap = record snap { ip = ip; gateway = gateway }

unfoldable pub read_network_snapshot :
    Text → Option Text → Bool → Option (Text × Text) → NetworkSnapshot
unfolding default_network
read_network_snapshot hostname wifi_ssid lock_free ip_info =
    if lock_free
    then with_addresses ip_info (default_network hostname wifi_ssid)
    else default_network hostname wifi_ssid

pub record WifiCredentials : Type 0 where
  pub ssid : Text
  pub pass : Text

unfoldable pub load_wifi_credentials_from_env : Option Text → Option Text → Option WifiCredentials
unfolding setting
load_wifi_credentials_from_env wifi_ssid wifi_pass = do
  ssid ← setting wifi_ssid
  pass ← setting wifi_pass
  some (record { ssid = ssid; pass = pass })

pub data AuthMethod : Type 0 where
  open_network : AuthMethod
  wpa2_personal : AuthMethod

unfoldable pub auth_method_of : WifiCredentials → AuthMethod
auth_method_of creds =
    if is_empty creds.pass then AuthMethod.open_network else AuthMethod.wpa2_personal

-- The configuration of the client.
pub record ClientConfiguration : Type 0 where
  pub ssid : Text
  pub password : Text
  pub auth_method : AuthMethod

-- The calls of the driver, in the order of the code. The two names must fit into the configuration.
pub data WifiCall : Type 0 where
  new_driver : WifiCall
  wrap_blocking : WifiCall
  fit_ssid : Text → WifiCall
  fit_password : Text → WifiCall
  set_configuration : ClientConfiguration → WifiCall
  start : WifiCall
  disable_power_save : WifiCall
  connect : WifiCall
  wait_netif_up : WifiCall
  read_ip_info : WifiCall
  subscribe_reconnect : WifiCall

-- The calls are made until one fails: those that have been made, and whether all have succeeded.
unfoldable pub attempt_calls : (WifiCall → Bool) → List WifiCall → List WifiCall × Bool
attempt_calls succeeds [] = ([], true)
attempt_calls succeeds (c ∷ cs) =
    let rest : List WifiCall × Bool = attempt_calls succeeds cs in
    if succeeds c then (c ∷ rest.0, rest.1) else (c ∷ [], false)

abbrev pub client_configuration : WifiCredentials → ClientConfiguration
client_configuration creds = record {
  ssid = creds.ssid;
  password = creds.pass;
  auth_method = auth_method_of creds;
}

unfoldable pub connect_calls : WifiCredentials → List WifiCall
unfolding auth_method_of
connect_calls creds =
    new_driver
    ∷ wrap_blocking
    ∷ fit_ssid creds.ssid
    ∷ fit_password creds.pass
    ∷ set_configuration (client_configuration creds)
    ∷ start
    ∷ disable_power_save
    ∷ connect
    ∷ wait_netif_up
    ∷ read_ip_info
    ∷ subscribe_reconnect
    ∷ []

unfoldable pub connect_wifi_sta : (WifiCall → Bool) → WifiCredentials → List WifiCall × Bool
unfolding attempt_calls connect_calls
connect_wifi_sta succeeds creds = attempt_calls succeeds (connect_calls creds)

-- An event of the driver, and whether the handler asks for a new association.
pub data WifiEvent : Type 0 where
  sta_disconnected : WifiEvent
  other_event : WifiEvent

abbrev pub asks_reconnect : WifiEvent → Bool
asks_reconnect WifiEvent.sta_disconnected = true
asks_reconnect WifiEvent.other_event = false
