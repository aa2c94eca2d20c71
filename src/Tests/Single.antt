-- ===== src/Tests/Single.antt =====
-- Files that are dropped on the dialog for one protocol.
use vpnhub.Prelude.{◌≡◌, refl, String, true, false, none, [], ◌∷◌}
use vpnhub.Types.{ProtocolType}
use vpnhub.Totp.{is_space}
use vpnhub.Views.Import.Config.{is_wireguard_file, parse_config_content}
use vpnhub.Views.Import.Single.{
  Single, is_wire_guard_content, is_open_vpn_content, single_profile, hand_over, on_load,
}
use vpnhub.Views.Import.Single.Agreement.{on_load-parse_config_content}
use vpnhub.Views.Import.Single.Refusals.{on_load-mixed}

abbrev fresh : Single
fresh = record { error = none; told = [] }

abbrev wireguard_file : String
wireguard_file = "[Interface]\nPrivateKey = aGk=\n[Peer]\nEndpoint = wg.example.com\n"

abbrev openvpn_file : String
openvpn_file = "client\nremote vpn.example.com 443 tcp\n<ca>\nabc\n</ca>\n"

abbrev both_file : String
both_file = "[Peer]\nremote vpn.example.com\n"

on_load-parse_config_content_example :
    on_load true true wireguard_file "home.conf" "id" 20 fresh
    ≡ hand_over true
        (record (parse_config_content wireguard_file "home.conf" "id" 20) { server_flag = "🌐" })
        fresh
unfolding is_wire_guard_content is_wireguard_file
on_load-parse_config_content_example =
    on_load-parse_config_content true true wireguard_file "home.conf" "id" 20 fresh refl refl

on_load-mixed_example :
    let p = single_profile false both_file "both.ovpn" "id" 20 in
    (on_load false true both_file "both.ovpn" "id" 20 fresh ≡ hand_over true p fresh)
    × (p.protocol ≡ ProtocolType.wireguard)
    × (p.tags ≡ "Imported" ∷ "OpenVPN" ∷ [])
unfolding is_wire_guard_content is_open_vpn_content is_space
on_load-mixed_example = on_load-mixed both_file "both.ovpn" "id" 20 fresh refl refl
