-- ===== src/Tests/Data.antt =====
-- A platform, some profiles and a few worlds.
use vpnhub.Prelude.{ℕ, zero, suc, ◌+◌, ◌*◌, String, ◌<>◌, true, false, none, some, List, [], ◌∷◌}
use vpnhub.Types.{ConnectionState, ProtocolType, PasswordMode, TotpFormat, VpnProfile}
use vpnhub.World.{Platform, World}
use vpnhub.Store.Initial.{SavedSettings, initial_world}
use vpnhub.Store.Profiles.{no_credentials}
use vpnhub.Machine.Mirror.{all_listeners}

-- The digest of RFC 4226, section 5.4.
abbrev pub digest : List ℕ
digest =
    0x1f ∷ 0x86 ∷ 0x98 ∷ 0x69 ∷ 0x0e ∷ 0x02 ∷ 0xca ∷ 0x16 ∷ 0x61 ∷ 0x85 ∷ 0x50 ∷ 0xef ∷ 0x7f ∷ 0x19
    ∷ 0xda ∷ 0x8e ∷ 0x94 ∷ 0x5b ∷ 0x55 ∷ 0x5a ∷ []

abbrev pub strokes : ℕ → String
strokes zero = ""
strokes (suc n) = "x" <> strokes n

abbrev pub desk : Platform
desk = record {
  tauri = true;
  now = λ n. 1_700_000_000_000 + n * 10;
  local_time = λ n. record { hours = 7; minutes = 5; seconds = 9; milliseconds = 42 };
  random_uuid = strokes;
  hmac_sha1 = λ key message. some digest;
}

abbrev pub office : VpnProfile
office = record {
  id = "office";
  name = "Office";
  protocol = ProtocolType.openvpn_udp;
  server_host = "vpn.example.com";
  server_port = 1194;
  server_country = "France";
  server_city = "";
  server_flag = "FR";
  virtual_ip = "10.8.0.2";
  assigned_ip = none;
  is_favorite = false;
  tags = [];
  last_connected = none;
  ping_ms = 20;
  credentials = some (record no_credentials { username = some "ada"; password = some "pw" });
  raw_config = none;
  routing_mode = none;
  use_only_for_network_resources = none;
  custom_subnets = none;
}

abbrev pub lab : VpnProfile
lab = record office {
  id = "lab";
  name = "Lab";
  credentials = some (record no_credentials {
    password = some "pw";
    password_mode = some PasswordMode.totp_auto;
    totp_secret = some "MZXW 6ytb";
    totp_format = some TotpFormat.append;
  });
}

abbrev pub asked : VpnProfile
asked = record office {
  id = "asked";
  credentials = some (record no_credentials { password_mode = some PasswordMode.dynamic_prompt });
}

-- The initial world with some profiles, the first of them active.
unfoldable pub with_profiles : List VpnProfile → String → World
unfolding initial_world
with_profiles ps id =
    let w = initial_world desk SavedSettings.missing in
    record w { store = record (w.store) { profiles = ps; active_profile_id = id } }

-- A store with two profiles in some state of the connection, everything subscribed.
unfoldable pub in_state : ConnectionState → World
unfolding with_profiles
in_state state =
    let w = with_profiles (office ∷ lab ∷ []) "office" in
    record w { store = record (w.store) { connection_state = state }; listeners = all_listeners }
