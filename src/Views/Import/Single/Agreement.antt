-- ===== src/Views/Import/Single/Agreement.antt =====
-- The two dialogs for files agree where the file is what the second one wants.
use vpnhub.Prelude.{ℕ, ◌≡◌, ◌∙◌, refl, String, Bool, true, false, Option, none, some, ap}
use vpnhub.Types.{ProtocolType, VpnProfile}
use vpnhub.Views.Import.Regex.{Regex, find_in_lines}
use vpnhub.Views.Import.Patterns
use vpnhub.Views.Import.Config.{
  Parsed, clean_name, is_wireguard_file, parse_wireguard, parse_openvpn, imported_profile,
  parse_config_content, block_of, group, protocol_or, with_mask, number_of,
}
use vpnhub.Views.Import.Single.{
  Single, is_wire_guard_content, is_open_vpn_content, named_protocol, ifconfig_ip, reneg_number,
  parse_wanted, parse_unwanted, parse_single, new_profile, single_profile, refusal, hand_over,
  on_load,
}

parse_single-wireguard : (content : String) → parse_single true content ≡ parse_wireguard content
unfolding parse_single parse_wanted parse_wireguard
parse_single-wireguard content = refl

named_protocol-protocol_or :
    (s : Option String) (p : ProtocolType) → named_protocol s p ≡ protocol_or s p
named_protocol-protocol_or none p = refl
named_protocol-protocol_or (some s) p = refl

ifconfig_ip-with_mask : (s : Option String) → ifconfig_ip s "10.8.0.50/24" ≡ with_mask s
ifconfig_ip-with_mask none = refl
ifconfig_ip-with_mask (some s) = refl

reneg_number-number_of : (s : Option String) → reneg_number s ≡ number_of s
reneg_number-number_of none = refl
reneg_number-number_of (some s) = refl

parse_unwanted-parse_openvpn :
    (content : String) → parse_unwanted false content ≡ parse_openvpn content
unfolding parse_unwanted parse_openvpn block_of
parse_unwanted-parse_openvpn content =
    let line = λ (r : Regex). find_in_lines r true content in
    let named = group 2 (line Patterns.remote) in
    let protocol =
      named_protocol-protocol_or named _
      ∙ ap (protocol_or named)
          (named_protocol-protocol_or (group 0 (line Patterns.proto)) ProtocolType.openvpn_udp) in
    let ip = ifconfig_ip-with_mask (group 0 (line Patterns.ifconfig)) in
    let reneg = reneg_number-number_of (group 0 (line Patterns.reneg_sec)) in
    λ i. record (parse_openvpn content) {
      protocol = protocol i;
      virtual_ip = ip i;
      reneg_sec = reneg i;
    }

parse_single-openvpn :
    (content : String)
    → is_wire_guard_content content ≡ false
    → parse_single false content ≡ parse_openvpn content
unfolding parse_single
parse_single-openvpn content h = rw h (parse_unwanted-parse_openvpn content)

abbrev with_flag : VpnProfile → VpnProfile
with_flag p = record p { server_flag = "🌐" }

new_profile-imported_profile :
    (expected : Bool) (v : Parsed) (name id : String) (ping : ℕ)
    → new_profile expected v name id ping ≡ with_flag (imported_profile expected v name id ping)
unfolding new_profile imported_profile
new_profile-imported_profile true v name id ping = refl
new_profile-imported_profile false v name id ping = refl

-- If the file has WireGuard's sections exactly if a WireGuard file is wanted, and the hub takes it for a
-- WireGuard file exactly then, both make the same profile of it, but for the flag.
single_profile-parse_config_content :
    (expected : Bool) (content file_name id : String) (ping : ℕ)
    → is_wire_guard_content content ≡ expected
    → is_wireguard_file content file_name ≡ expected
    → single_profile expected content file_name id ping
      ≡ record (parse_config_content content file_name id ping) { server_flag = "🌐" }
unfolding single_profile parse_config_content
single_profile-parse_config_content true content file_name id ping sections taken = simp taken (
    ap (λ v. new_profile true v (clean_name file_name) id ping) (parse_single-wireguard content)
    ∙ new_profile-imported_profile true (parse_wireguard content) (clean_name file_name) id ping)
single_profile-parse_config_content false content file_name id ping sections taken = simp taken (
    ap (λ v. new_profile false v (clean_name file_name) id ping)
      (parse_single-openvpn content sections)
    ∙ new_profile-imported_profile false (parse_openvpn content) (clean_name file_name) id ping)

refusal-none : (expected openvpn : Bool) → refusal expected expected openvpn ≡ none
refusal-none true true = refl
refusal-none true false = refl
refusal-none false openvpn = refl

-- If the file has WireGuard's sections exactly if a WireGuard file is wanted, and the hub takes it for a
-- WireGuard file exactly then, the parent gets the profile that the hub gives, but for the flag, and is
-- told to close the dialog.
pub on_load-parse_config_content :
    (expected wanted : Bool) (content file_name id : String) (ping : ℕ) (d : Single)
    → is_wire_guard_content content ≡ expected
    → is_wireguard_file content file_name ≡ expected
    → on_load expected wanted content file_name id ping d
      ≡ hand_over wanted
          (record (parse_config_content content file_name id ping) { server_flag = "🌐" })
          d
unfolding on_load
on_load-parse_config_content expected wanted content file_name id ping d sections taken =
    rw (sections, refusal-none expected (is_open_vpn_content content file_name))
      (ap (λ p. hand_over wanted p d)
        (single_profile-parse_config_content expected content file_name id ping sections taken))
