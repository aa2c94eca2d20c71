-- ===== src/Types/Equality.antt =====
-- The tests `===` on the enumerations of types/vpn.ts, and the texts that the source prints for them.
use vpnhub.Prelude.{Bool, true, false, String}
use vpnhub.Types.{ConnectionState, DaemonHealthStatus, ProtocolType, KillSwitchMode}

abbrev pub state_eq : ConnectionState → ConnectionState → Bool
state_eq ConnectionState.disconnected ConnectionState.disconnected = true
state_eq ConnectionState.connecting ConnectionState.connecting = true
state_eq ConnectionState.connected ConnectionState.connected = true
state_eq ConnectionState.reconnecting ConnectionState.reconnecting = true
state_eq ConnectionState.disconnecting ConnectionState.disconnecting = true
state_eq ConnectionState.error ConnectionState.error = true
state_eq _ _ = false

abbrev pub health_eq : DaemonHealthStatus → DaemonHealthStatus → Bool
health_eq DaemonHealthStatus.connected DaemonHealthStatus.connected = true
health_eq DaemonHealthStatus.reconnecting DaemonHealthStatus.reconnecting = true
health_eq DaemonHealthStatus.offline DaemonHealthStatus.offline = true
health_eq _ _ = false

abbrev pub protocol_eq : ProtocolType → ProtocolType → Bool
protocol_eq ProtocolType.wireguard ProtocolType.wireguard = true
protocol_eq ProtocolType.openvpn_udp ProtocolType.openvpn_udp = true
protocol_eq ProtocolType.openvpn_tcp ProtocolType.openvpn_tcp = true
protocol_eq ProtocolType.ipsec ProtocolType.ipsec = true
protocol_eq _ _ = false

abbrev pub is_off : KillSwitchMode → Bool
is_off KillSwitchMode.off = true
is_off _ = false

-- `mode.toUpperCase()`
abbrev pub upper_mode : KillSwitchMode → String
upper_mode KillSwitchMode.off = "OFF"
upper_mode KillSwitchMode.standard = "STANDARD"
upper_mode KillSwitchMode.strict = "STRICT"

abbrev pub protocol_text : ProtocolType → String
protocol_text ProtocolType.wireguard = "wireguard"
protocol_text ProtocolType.openvpn_udp = "openvpn_udp"
protocol_text ProtocolType.openvpn_tcp = "openvpn_tcp"
protocol_text ProtocolType.ipsec = "ipsec"
