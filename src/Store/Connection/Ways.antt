-- ===== src/Store/Connection/Ways.antt =====
-- Everything that a call of `connect` can come to, and what it sends with a one-time code.
use vpnhub.Prelude.{
  suc, ◌≡◌, ◌⊎◌, String, ◌<>◌, true, false, not, Option, none, some, [], ◌∷◌, ◌++◌, get_or,
  nonempty,
}
use vpnhub.Types.{ConnectionState, ProtocolType, TotpFormat, SecuritySettings, VpnProfile}
use vpnhub.Types.Equality.{is_off}
use vpnhub.Bridge.{AuthConfig, Command, VpnConnectParams}
use vpnhub.Totp.{generate_code}
use vpnhub.World.{Platform, World, Task, Effect}
use vpnhub.Store.Connection.{credentials_of, is_connecting_or_connected, auth_config}
use vpnhub.Store.Connection.Guards.{chosen, needs_prompt, needs_otp}

abbrev pub password_of : AuthConfig → Option String
password_of (AuthConfig.wireguard_key key preshared) = none
password_of (AuthConfig.user_password a) = some a.password
password_of (AuthConfig.raw_ovpn_config content username password) = password

-- What the daemon is asked for: this profile's server, under these settings and with this password, which
-- WireGuard has no use for.
abbrev pub IsRequest : VpnProfile → SecuritySettings → String → VpnConnectParams → Type 0
IsRequest p settings password params =
    (params.profile_id ≡ p.id)
    × (params.server_endpoint ≡ p.server_host)
    × (params.server_port ≡ p.server_port)
    × (params.enable_kill_switch ≡ not (is_off settings.kill_switch))
    × ((p.protocol ≡ ProtocolType.wireguard) ⊎ (password_of params.auth_config ≡ some password))

-- The call has nothing to do.
abbrev pub IsIdle : Option String → World → World → Type 0
IsIdle target w v =
    ((is_connecting_or_connected w.store.connection_state ≡ true) ⊎ (chosen w.store target ≡ none))
    × (v ≡ w)

-- The profile is handed to the prompt, and nothing else.
abbrev pub IsAsked : VpnProfile → Option String → World → World → Type 0
IsAsked p password w v =
    (needs_prompt p password ≡ true)
    × (v ≡ record w { store = record (w.store) { mfa_prompt_profile = some p } })

-- The handshake has begun, and a one-time code is awaited before anything is sent.
abbrev pub IsCoded : Platform → VpnProfile → Option String → World → World → Type 0
IsCoded platform p password w v =
    let secret = get_or (credentials_of p).totp_secret "" in
    let live_otp = generate_code platform.hmac_sha1 secret (platform.now (suc w.reads)) 6 30 in
    (needs_otp p password ≡ true)
    × (v.effects ≡ w.effects)
    × (v.tasks ≡ w.tasks ++ Task.connect_otp p w.store.security_settings live_otp ∷ [])

-- The handshake has begun with a request, whose answer is awaited.
abbrev pub IsSent : VpnProfile → Option String → World → World → Type 0
IsSent p password w v =
    (needs_otp p password ≡ false)
    × ((params : VpnConnectParams) × IsRequest p w.store.security_settings (get_or password "")
          params
        × (v.effects ≡ Effect.invoke (Command.vpn_connect params) ∷ w.effects)
        × (v.tasks ≡ w.tasks ++ Task.connect_response params ∷ []))

abbrev pub IsBegun : Platform → VpnProfile → Option String → World → World → Type 0
IsBegun platform p password w v =
    (needs_prompt p password ≡ false)
    × (v.store.connection_state ≡ ConnectionState.connecting)
    × (v.store.active_profile_id ≡ p.id)
    × (IsCoded platform p password w v ⊎ IsSent p password w v)

abbrev pub IsTaken : Platform → Option String → Option String → World → World → Type 0
IsTaken platform target password w v =
    (p : VpnProfile) × (is_connecting_or_connected w.store.connection_state ≡ false)
    × (chosen w.store target ≡ some p)
    × (IsAsked p password w v ⊎ IsBegun platform p password w v)

-- How the saved password and a code are put together.
abbrev pub IsJoined : Option TotpFormat → (base code sent : String) → Type 0
IsJoined (some TotpFormat.prefix) base code sent = sent ≡ code <> base
IsJoined (some TotpFormat.totp_only) base code sent =
    ((nonempty code ≡ true) × (sent ≡ code)) ⊎ ((nonempty code ≡ false) × (sent ≡ base))
IsJoined (some TotpFormat.append) base code sent = sent ≡ base <> code
IsJoined none base code sent = sent ≡ base <> code

-- One request with this password and this code has been sent since `w`.
abbrev pub IsSentWithCode : VpnProfile → String → World → World → Type 0
IsSentWithCode p code w u =
    let c = credentials_of p in
    (sent : String) × (params : VpnConnectParams) × IsJoined c.totp_format (get_or c.password "")
      code sent
    × IsRequest p w.store.security_settings sent params
    × (u.effects ≡ Effect.invoke (Command.vpn_connect params) ∷ w.effects)
