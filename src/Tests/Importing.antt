-- ===== src/Tests/Importing.antt =====
-- The import of configuration files at concrete files.
use vpnhub.Prelude.{◌≡◌, refl, String, ◌<>◌, none, some, true, false, [], ◌∷◌, or_text}
use vpnhub.Types.{ProtocolType}
use vpnhub.Totp.{is_space}
use vpnhub.Views.Text.{includes}
use vpnhub.Views.Trim.{trim}
use vpnhub.Views.Import.Patterns.{
  remote, private_key, address, endpoint, preshared_key, user_comment, is_word, is_digit,
  auth_user_pass, block,
}
use vpnhub.Views.Import.Config.{
  parse_int, block_of, clean_name, parse_wireguard, parse_openvpn, imported_profile,
}
use vpnhub.Views.Import.Runs.{IsRun}
use vpnhub.Views.Import.Remote.{Transport, protocol_of, remote_line, parse_openvpn-remote}
use vpnhub.Views.Import.Saved.{file_secret, imported-form}
use vpnhub.Views.Import.Hub.{Hub, ReadOutcome, Reading, Source, drop_paths, finish_reading}
use vpnhub.Views.Import.Hub.Reach.{
  Reachable, initial, further, opened, dropped, read, empty_hub, Holds, Reachable-Holds,
}
use vpnhub.Views.Form.{fill_form, form_profile, form_secret}
use vpnhub.Bridge.{ProfileSecretPayload}
use vpnhub.Views.Import.Blocks.{opening, closing, block_of-tags}

block_of-tags_example :
    block_of
      (opening "ca")
      (closing "ca")
      ("client\n<cert>C</cert>\n" <> (opening "ca" <> ("\nMII\n" <> (closing "ca" <> "\n<key>\n"))))
    ≡ some (trim "\nMII\n")
unfolding includes
block_of-tags_example =
    block_of-tags "ca" "\nMII\n" "client\n<cert>C</cert>\n" "\n<key>\n" (refl, (refl, tt))
      (refl, (refl, (refl, (refl, (refl, tt))))) refl

parse_openvpn-remote_example :
    let v = parse_openvpn (
      "client\nproto tcp"
      <> String.◌∷◌ "\n" (remote_line "vpn.example.com" "443" Transport.udp "remote backup\n")) in
    (v.server_host ≡ "vpn.example.com")
    × (v.server_port ≡ parse_int "443")
    × (v.protocol ≡ protocol_of Transport.udp)
unfolding includes is_space
parse_openvpn-remote_example =
    parse_openvpn-remote "client\nproto tcp" "vpn.example.com" "443" Transport.udp "remote backup\n"
      refl host_run port_run
  where
    host_run : IsRun is_word "vpn.example.com"
    host_run = (
      refl,
      (
        refl,
        (
          refl,
          (
            refl,
            (
              refl,
              (refl, (refl, (refl, (refl, (refl, (refl, (refl, (refl, (refl, (refl, tt)))))))))),
            ),
          ),
        ),
      ),
    )

    port_run : IsRun is_digit "443"
    port_run = (refl, (refl, (refl, tt)))

abbrev wireguard_file : String
wireguard_file =
    "[Interface]\nPrivateKey = abc=\naddress=10.0.0.2/32, fd00::1\n[Peer]\nEndpoint = vpn.example.com:51821\n"

wireguard_file_example :
    let v = parse_wireguard wireguard_file in
    (v.private_key ≡ some "abc=")
    × (v.virtual_ip ≡ "10.0.0.2/32")
    × (v.server_host ≡ "vpn.example.com")
    × (v.server_port ≡ 51821)
    × (v.preshared_key ≡ none)
unfolding parse_wireguard private_key is_space trim address endpoint preshared_key
wireguard_file_example = (refl, refl, refl, refl, refl)

abbrev openvpn_file : String
openvpn_file =
    "client\nproto tcp\nremote vpn.example.com 443 udp\nauth-user-pass\n# username: bob \n<ca>\nAAA\n</ca>\n"

openvpn_file_example :
    let v = parse_openvpn openvpn_file in
    (v.protocol ≡ ProtocolType.openvpn_udp)
    × (v.server_host ≡ "vpn.example.com")
    × (v.server_port ≡ 443)
    × (v.username ≡ some "bob")
    × (v.has_auth_user_pass ≡ true)
    × (v.ca_cert ≡ some "AAA")
unfolding parse_openvpn remote is_space trim user_comment auth_user_pass block
openvpn_file_example = (refl, refl, refl, refl, refl, refl)

clean_name_example : clean_name "my.conf.ovpn" ≡ "my.conf"
unfolding clean_name
clean_name_example = refl

imported-form_example :
    let v = parse_openvpn openvpn_file in
    let p = imported_profile false v "office" "id" 30 in
    let f = fill_form p in
    (form_secret f ≡ some (ProfileSecretPayload.user_password (file_secret v)))
    × ((form_profile (some p) f "new" 0).protocol ≡ v.protocol)
    × ((form_profile (some p) f "new" 0).server_host ≡ or_text (some v.server_host) "127.0.0.1")
imported-form_example = imported-form openvpn_file "office" "id" "new" 30 0

-- An OpenVPN file that is dropped while the dialog is open.
abbrev open_hub : Hub
open_hub = record empty_hub { is_hub_modal_open = true }

abbrev one_reading : Reading
one_reading = record { file_name = "office.ovpn"; source = Source.dropped "/tmp/office.ovpn" }

unfoldable busy_hub : Hub
unfolding drop_paths
busy_hub = drop_paths ("/tmp/office.ovpn" ∷ []) open_hub

busy_hub_example : busy_hub.readings ≡ one_reading ∷ []
unfolding busy_hub
busy_hub_example = refl

unfoldable read_hub : Hub
unfolding busy_hub finish_reading
read_hub =
    finish_reading one_reading (ReadOutcome.content_read openvpn_file) "id" 30
      (record busy_hub { readings = [] })

read_hub-Reachable : Reachable read_hub
unfolding read_hub busy_hub
read_hub-Reachable =
    further (further (further initial opened) (dropped ("/tmp/office.ovpn" ∷ []) refl))
      (read [] [] one_reading (ReadOutcome.content_read openvpn_file) "id" 30 refl)

Reachable-Holds_example : Holds read_hub
Reachable-Holds_example = Reachable-Holds read_hub read_hub-Reachable

-- The first key counts, although it is commented out.
commented_key_example :
    (parse_wireguard "#PrivateKey = old\nPrivateKey = new\n").private_key ≡ some "old"
unfolding parse_wireguard private_key is_space trim
commented_key_example = refl
