-- ===== src/Store/Connection.antt =====
-- `connect`, `disconnect` and `retryDaemonIpc`, cut at their `await`s.
pub mod Guards
pub mod Races
pub mod Ways
use vpnhub.Prelude.{
  ℕ, String, ◌<>◌, Bool, true, false, not, ◌&&◌, ◌||◌, Option, none, some, List, [], ◌∷◌, str_eq,
  if◌then◌else◌, find, head?, nonempty, truthy, or_text, get_or, show, pos,
}
use vpnhub.Types.{
  ConnectionState, DaemonHealthStatus, ProtocolType, PasswordMode, TotpFormat, Credentials,
  VpnProfile, SecuritySettings, LogLevel,
}
use vpnhub.Types.Equality.{state_eq, is_off}
use vpnhub.Bridge.{
  Outcome, resolved, rejected, TunnelProtocol, UserPasswordAuth, AuthConfig, VpnConnectParams,
  DaemonReply,
}
use vpnhub.Bridge.Methods.{connect_vpn, disconnect_vpn, ping_daemon, update_tray_status}
use vpnhub.Totp.{generate_code}
use vpnhub.World.{
  VpnStoreState, Platform, Action, World, Task, get, set, start, await, defer, tick, pass, branch,
  ◌>>=◌, ◌>>◌,
}
use vpnhub.Store.Logs.{add_log}
use vpnhub.Store.Profiles.{no_credentials}

-- `profile.credentials?.x` is the field of these credentials.
abbrev pub credentials_of : VpnProfile → Credentials
credentials_of profile = get_or profile.credentials no_credentials

-- `profiles.find((p) => p.id === id) || profiles[0]`
unfoldable pub choose_profile : List VpnProfile → String → Option VpnProfile
choose_profile profiles id = elim (find (λ (p : VpnProfile). str_eq p.id id) profiles) [
  | none ↦ head? profiles
  | some p ↦ some p
]

abbrev pub is_dynamic_prompt : Option PasswordMode → Bool
is_dynamic_prompt (some PasswordMode.dynamic_prompt) = true
is_dynamic_prompt _ = false

abbrev pub is_totp_auto : Option PasswordMode → Bool
is_totp_auto (some PasswordMode.totp_auto) = true
is_totp_auto _ = false

abbrev pub is_undefined {ℓ} : {A : Type ℓ} → Option A → Bool
is_undefined none = true
is_undefined (some a) = false

-- An `ipsec` profile is connected by `openvpn_udp`.
abbrev pub tunnel_protocol : ProtocolType → TunnelProtocol
tunnel_protocol ProtocolType.wireguard = TunnelProtocol.wireguard
tunnel_protocol ProtocolType.openvpn_udp = TunnelProtocol.openvpn_udp
tunnel_protocol ProtocolType.openvpn_tcp = TunnelProtocol.openvpn_tcp
tunnel_protocol ProtocolType.ipsec = TunnelProtocol.openvpn_udp

user_password_auth : VpnProfile → String → UserPasswordAuth
user_password_auth profile password =
    let c = credentials_of profile in
    record {
      username = get_or c.username "";
      password = password;
      ca_cert = c.ca_cert;
      client_cert = c.client_cert;
      client_key = c.client_key;
      tls_auth_key = c.tls_auth_key;
      tls_crypt_key = c.tls_crypt_key;
      key_direction = c.key_direction;
      remote_cert_tls_server = c.remote_cert_tls_server;
      reneg_sec = c.reneg_sec;
      ovpn_config = profile.raw_config;
    }

unfoldable pub auth_of : ProtocolType → VpnProfile → String → AuthConfig
unfolding user_password_auth
auth_of ProtocolType.wireguard profile password =
    let c = credentials_of profile in
    AuthConfig.wireguard_key (get_or c.private_key "") c.preshared_key
auth_of _ profile password = AuthConfig.user_password (user_password_auth profile password)

unfoldable pub auth_config : VpnProfile → String → AuthConfig
unfolding auth_of
auth_config profile password = auth_of profile.protocol profile password

unfoldable pub connect_params : VpnProfile → SecuritySettings → String → VpnConnectParams
unfolding auth_config
connect_params profile settings password = record {
  profile_id = profile.id;
  protocol = tunnel_protocol profile.protocol;
  server_endpoint = profile.server_host;
  server_port = profile.server_port;
  auth_config = auth_config profile password;
  enable_kill_switch = not (is_off settings.kill_switch);
  custom_dns = none;
  security_policy = some (record {
    kill_switch_mode = settings.kill_switch;
    ipv6_leak_protection = settings.ipv6_leak_protection;
    webrtc_protection = settings.web_rtc_protection;
    lan_bypass = settings.lan_bypass;
  });
  routing_policy = some (record {
    intranet_only =
        get_or profile.use_only_for_network_resources
          (get_or settings.default_use_only_for_network_resources false);
    custom_subnets = get_or profile.custom_subnets [];
  });
}

-- From `const authConfig` to the `await` of `connectVpn`.
unfoldable pub send_request : Platform → VpnProfile → SecuritySettings → String → Action
send_request platform profile settings password =
    let params = connect_params profile settings password in
    await (connect_vpn platform.tauri params) (Task.connect_response params)

-- The password with the code, by the profile's format.
unfoldable pub combine_otp : Option TotpFormat → String → String → String
combine_otp (some TotpFormat.prefix) base_pass live_otp = live_otp <> base_pass
combine_otp (some TotpFormat.totp_only) base_pass live_otp =
    if nonempty live_otp then live_otp else base_pass
combine_otp _ base_pass live_otp = base_pass <> live_otp

-- `connect` behind the `await` of `generateCode`.
unfoldable pub resume_otp : Platform → VpnProfile → SecuritySettings → String → Action
resume_otp platform profile settings live_otp = do
  let c = credentials_of profile
  let password = combine_otp c.totp_format (get_or c.password "") live_otp
  add_log platform LogLevel.info "CRYPTO_2FA"
      "Generated real-time TOTP OTP for OpenVPN 2FA handshake"
  send_request platform profile settings password

-- The call of `generateCode`, which reads the clock at once and settles later.
unfoldable pub start_otp : Platform → VpnProfile → SecuritySettings → String → Action
start_otp platform profile settings secret = do
  n ← λ w. w.reads
  tick
  defer (
      Task.connect_otp profile settings
        (generate_code platform.hmac_sha1 secret (platform.now n) 6 30))

abbrev pub handshake_text : VpnProfile → String
handshake_text profile =
    "Initiating tunnel handshake to "
    <> (profile.name
        <> (" (" <> (profile.server_host <> (":" <> (show profile.server_port <> ")...")))))

-- `connect` for a profile that is not to be prompted for.
unfoldable pub begin_connect : Platform → VpnStoreState → VpnProfile → Option String → Action
begin_connect platform state profile override_password = do
  let c = credentials_of profile
  let password = get_or override_password ""
  set (λ s. record s {
    connection_state = ConnectionState.connecting;
    active_profile_id = profile.id;
  })
  add_log platform LogLevel.info "TUNNEL_ENGINE" (handshake_text profile)
  branch (not (nonempty password) && (is_totp_auto c.password_mode && truthy c.totp_secret))
      (start_otp platform profile state.security_settings (get_or c.totp_secret ""))
      (send_request platform profile state.security_settings password)

unfoldable pub connect_chosen :
    Platform → VpnStoreState → Option String → Option VpnProfile → Action
connect_chosen platform state override_password none = pass
connect_chosen platform state override_password (some profile) =
    let c = credentials_of profile in
    branch (is_dynamic_prompt c.password_mode && is_undefined override_password)
      (set (λ s. record s { mfa_prompt_profile = some profile }))
      (begin_connect platform state profile override_password)

abbrev pub is_connecting_or_connected : ConnectionState → Bool
is_connecting_or_connected s =
    state_eq s ConnectionState.connecting || state_eq s ConnectionState.connected

-- `connect(targetProfileId?, overridePassword?)`, up to its first `await`.
unfoldable pub connect : Platform → Option String → Option String → Action
connect platform target_profile_id override_password = do
  state ← get
  branch (is_connecting_or_connected state.connection_state) pass (
      connect_chosen platform state override_password
        (choose_profile state.profiles (or_text target_profile_id state.active_profile_id)))

abbrev pub fail_connect : Platform → String → Action
fail_connect platform message = do
  add_log platform LogLevel.error "TUNNEL_ENGINE" message
  set (λ s. record s { connection_state = ConnectionState.error })

-- `connect` behind the `await` of `connectVpn`.
unfoldable pub resume_connect : Platform → Outcome (Option DaemonReply) → Action
resume_connect platform (resolved none) = pass
resume_connect platform (resolved (some r)) =
    branch (str_eq r.status "error")
      (fail_connect platform
        ("Connection failed: " <> or_text r.message "Connection request rejected by daemon"))
      pass
resume_connect platform (rejected message) =
    fail_connect platform ("Failed to invoke vpn_connect: " <> message)

abbrev pub set_disconnected : Action
set_disconnected = set (λ s. record s {
  connection_state = ConnectionState.disconnected;
  connected_at = none;
  uptime_seconds = pos 0;
})

abbrev pub is_down : ConnectionState → Bool
is_down s = state_eq s ConnectionState.disconnected || state_eq s ConnectionState.disconnecting

-- A handshake is aborted at once. What the daemon answers to that changes nothing.
unfoldable pub abort_connect : Platform → Action
abort_connect platform = do
  set_disconnected
  add_log platform LogLevel.warn "TUNNEL_ENGINE" "Connection handshake aborted by user."
  start (update_tray_status platform.tauri ConnectionState.disconnected)
  start (disconnect_vpn platform.tauri true)

unfoldable pub tear_down : Platform → Action
tear_down platform = do
  set (λ s. record s { connection_state = ConnectionState.disconnecting })
  add_log platform LogLevel.warn "TUNNEL_ENGINE"
      "Disconnect request received. Tearing down tunnel interfaces..."
  await (disconnect_vpn platform.tauri false) Task.disconnect_response

unfoldable pub disconnect : Platform → Action
disconnect platform = do
  state ← get
  branch (is_down state.connection_state) pass (
      branch (state_eq state.connection_state ConnectionState.connecting) (abort_connect platform)
        (tear_down platform))

-- `disconnect` behind the `await` of `disconnectVpn`.
unfoldable pub resume_disconnect : Platform → Outcome (Option DaemonReply) → Action
resume_disconnect platform (resolved r) = set_disconnected
resume_disconnect platform (rejected message) = do
  add_log platform LogLevel.error "TUNNEL_ENGINE" ("Disconnect error: " <> message)
  set_disconnected

unfoldable pub retry_daemon_ipc : Platform → Action
retry_daemon_ipc platform = do
  state ← get
  await (ping_daemon platform.tauri) (Task.retry_response state.connection_state)

-- `retryDaemonIpc` behind its `await`, with the connection state that it has read before.
unfoldable pub resume_retry : Platform → ConnectionState → Bool → Action
resume_retry platform was true = do
  set (λ s. record s { daemon_health = DaemonHealthStatus.connected })
  add_log platform LogLevel.info "DAEMON_IPC" "Daemon probe succeeded: IPC socket online."
  branch (state_eq was ConnectionState.error)
      (set (λ s. record s { connection_state = ConnectionState.disconnected })) pass
resume_retry platform was false = do
  set (λ s. record s { daemon_health = DaemonHealthStatus.offline })
  add_log platform LogLevel.error "DAEMON_IPC" "Daemon probe failed: IPC socket still unreachable."
