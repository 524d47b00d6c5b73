-- ===== src/Wifi/Security.antt =====
-- Which networks the station joins, src/wifi.rs.
use rust_gps_ntp.Common.{
  ◌≡◌, inl, inr, refl, Bool, false, Option, none, some, List, [], ◌∷◌, >>=-eq-some, All, Bool-cases,
  arith,
}
use rust_gps_ntp.Protection.Cidr.{Text, trim, is_empty}
use rust_gps_ntp.Wifi.{
  setting, WifiCredentials, load_wifi_credentials_from_env, AuthMethod, auth_method_of, WifiCall,
  attempt_calls, connect_calls, connect_wifi_sta, set_configuration, new_driver, wrap_blocking,
  fit_ssid, fit_password, start, disable_power_save, connect, wait_netif_up, read_ip_info,
  subscribe_reconnect,
}

setting-full :
    (value : Option Text) (text : Text) → setting value ≡ some text → is_empty text ≡ false
unfolding setting
setting-full none text h = cc
setting-full (some v) text h = elim (Bool-cases (is_empty (trim v))) [
  | inl e ↦ let bad : none ≡ some text = rw e at h in cc
  | inr e ↦ let same : some (trim v) ≡ some text = rw e at h in ground (arith, same, e)
]

loaded-full :
    (wifi_ssid wifi_pass : Option Text) (creds : WifiCredentials)
    → load_wifi_credentials_from_env wifi_ssid wifi_pass ≡ some creds
    → is_empty creds.pass ≡ false
unfolding load_wifi_credentials_from_env
loaded-full wifi_ssid wifi_pass creds h =
    let outer = >>=-eq-some (setting wifi_ssid) _ h in
    let inner = >>=-eq-some (setting wifi_pass) _ outer.2 in
    let same : inner.0 ≡ creds.pass = cc (inner.2) in
    rw (← same) (setting-full wifi_pass inner.0 inner.1)

-- A call sets no configuration, or one that asks for WPA2 with a passphrase.
abbrev pub IsSecured : WifiCall → Type 0
IsSecured (set_configuration c) =
    (c.auth_method ≡ AuthMethod.wpa2_personal) × (is_empty c.password ≡ false)
IsSecured new_driver = Unit
IsSecured wrap_blocking = Unit
IsSecured (fit_ssid _) = Unit
IsSecured (fit_password _) = Unit
IsSecured start = Unit
IsSecured disable_power_save = Unit
IsSecured connect = Unit
IsSecured wait_netif_up = Unit
IsSecured read_ip_info = Unit
IsSecured subscribe_reconnect = Unit

attempt_calls-All :
    (P : WifiCall → Type 0) (succeeds : WifiCall → Bool) (cs : List WifiCall)
    → All P cs
    → All P (attempt_calls succeeds cs).0
unfolding attempt_calls
attempt_calls-All P succeeds [] h = tt
attempt_calls-All P succeeds (c ∷ cs) h = elim (Bool-cases (succeeds c)) [
  | inl e ↦ rw e (h.0, attempt_calls-All P succeeds cs h.1)
  | inr e ↦ rw e (h.0, tt)
]

-- Whatever the settings of the build and the answers of the driver, a station whose credentials have
-- been loaded is only ever configured for WPA2 with a passphrase, never for an open network.
pub connect_wifi_sta-IsSecured :
    (wifi_ssid wifi_pass : Option Text) (creds : WifiCredentials) (succeeds : WifiCall → Bool)
    → load_wifi_credentials_from_env wifi_ssid wifi_pass ≡ some creds
    → All IsSecured (connect_wifi_sta succeeds creds).0
unfolding connect_wifi_sta load_wifi_credentials_from_env auth_method_of
connect_wifi_sta-IsSecured wifi_ssid wifi_pass creds succeeds h =
    let full = loaded-full wifi_ssid wifi_pass creds h in
    attempt_calls-All IsSecured succeeds (connect_calls creds)
      (tt, (tt, (tt, (tt, ((rw full refl, full), (tt, (tt, (tt, (tt, (tt, (tt, tt)))))))))))
