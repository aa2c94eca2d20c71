-- ===== src/Machine/Requests.antt =====
-- What every request for a tunnel that the store ever sends has in common.
use vpnhub.Prelude.{◌≡◌, refl, String, Bool, true, false, not, some, List, All}
use vpnhub.Types.{ProtocolType, VpnProfile, SecuritySettings, LogLevel}
use vpnhub.Types.Equality.{is_off}
use vpnhub.Bridge.{
  Command, TunnelProtocol, AuthConfig, SecurityPolicy, RoutingPolicy, VpnConnectParams,
}
use vpnhub.World.{Platform, World, Effect}
use vpnhub.Store.Initial.{SavedSettings, initial_world}
use vpnhub.Store.Logs.{add_log, clear_logs}
use vpnhub.Store.Connection
use vpnhub.Store.Connection.{connect_params}
use vpnhub.Machine.{Event, boot, run}
use vpnhub.Machine.Invariant.{IsInvariant, is_request}
use vpnhub.Machine.Invariant.Events.{keeps-run, keeps-boot}

abbrev pub is_wireguard : TunnelProtocol → Bool
is_wireguard TunnelProtocol.wireguard = true
is_wireguard _ = false

abbrev pub is_wireguard_key : AuthConfig → Bool
is_wireguard_key (AuthConfig.wireguard_key _ _) = true
is_wireguard_key _ = false

-- The kill switch is asked for exactly if the policy that is sent along has one, the credentials are
-- of the kind that the protocol wants, and the routing policy is there.
abbrev pub IsCoherent : VpnConnectParams → Type 0
IsCoherent p =
    ((policy : SecurityPolicy) × (p.security_policy ≡ some policy)
      × (p.enable_kill_switch ≡ not (is_off policy.kill_switch_mode)))
    × (is_wireguard_key p.auth_config ≡ is_wireguard p.protocol)
    × ((routing : RoutingPolicy) × (p.routing_policy ≡ some routing))

abbrev pub IsCoherentEffect : Effect → Type 0
IsCoherentEffect (Effect.invoke (Command.vpn_connect p)) = IsCoherent p
IsCoherentEffect _ = Unit

abbrev pub AllCoherent : World → Type 0
AllCoherent w = All IsCoherentEffect w.effects

auth-protocol :
    (q : ProtocolType) (p : VpnProfile) (password : String)
    → is_wireguard_key (Connection.auth_of q p password)
      ≡ is_wireguard (Connection.tunnel_protocol q)
unfolding Connection.auth_of
auth-protocol ProtocolType.wireguard p password = refl
auth-protocol _ p password = refl

connect_params-IsCoherent :
    (p : VpnProfile) (settings : SecuritySettings) (password : String)
    → IsCoherent (connect_params p settings password)
unfolding connect_params
connect_params-IsCoherent p settings password =
    ((_, refl, refl), auth-protocol p.protocol p password, (_, refl))

other-IsCoherent : (e : Effect) → is_request e ≡ false → IsCoherentEffect e
other-IsCoherent (Effect.invoke (Command.vpn_connect p)) h = cc
other-IsCoherent _ h = tt

add_log-AllCoherent :
    (platform : Platform) (w : World) (level : LogLevel) (source message : String)
    → AllCoherent w
    → AllCoherent (add_log platform level source message w)
unfolding add_log
add_log-AllCoherent platform w level source message p = p

clear_logs-AllCoherent : (w : World) → AllCoherent w → AllCoherent (clear_logs w)
unfolding clear_logs
clear_logs-AllCoherent w p = p

AllCoherent-invariant : (platform : Platform) → IsInvariant platform AllCoherent
AllCoherent-invariant platform = record {
  quiet = λ p l t. p;
  point = λ q p l t. p;
  log = λ level source message p. add_log-AllCoherent platform _ level source message p;
  clear = λ p. clear_logs-AllCoherent _ p;
  effect = λ {w} {e} p h. (other-IsCoherent e h, p);
  request = λ profile settings password p. (connect_params-IsCoherent profile settings password, p);
  tasks = λ p. p;
  listen = λ l p. p;
  subscribed = λ p. p;
  loading = λ p. p;
  notified = λ p. p;
  reading = λ p. p;
}

initial_world-AllCoherent :
    (platform : Platform) (saved : SavedSettings) → AllCoherent (initial_world platform saved)
unfolding initial_world
initial_world-AllCoherent platform saved = tt

-- Whatever happens, in whatever order, each request for a tunnel that has been sent to the daemon asks
-- for the kill switch exactly if the policy in the same request has one, carries a WireGuard key
-- exactly if its protocol is WireGuard, and has a routing policy.
pub run-AllCoherent :
    (platform : Platform) (saved : SavedSettings) (es : List Event)
    → AllCoherent (run platform (boot platform saved) es)
run-AllCoherent platform saved es = keeps-run platform (AllCoherent-invariant platform) es (
    keeps-boot platform (AllCoherent-invariant platform) saved
      (initial_world-AllCoherent platform saved))
