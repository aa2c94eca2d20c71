-- ===== src/Views/Import/Single/Refusals.antt =====
-- What the dialog for one protocol does with a file of the other one, and with a file of both.
use vpnhub.Prelude.{ℕ, ◌≡◌, refl, String, Bool, true, false, not, some, [], ◌∷◌}
use vpnhub.Types.{ProtocolType}
use vpnhub.Views.Import.Single.{
  ImportError, Single, is_wire_guard_content, is_open_vpn_content, parse_wanted, parse_single,
  new_profile, single_profile, refusal, hand_over, on_load,
}

abbrev wrong_file : Bool → ImportError
wrong_file true = ImportError.err_expected_wg
wrong_file false = ImportError.err_expected_ovpn

refusal-other :
    (expected : Bool) → refusal expected (not expected) expected ≡ some (wrong_file expected)
refusal-other true = refl
refusal-other false = refl

-- A file that has only what files of the other protocol have is refused with the message for the wanted
-- protocol, and the parent is told nothing.
pub on_load-other :
    (expected wanted : Bool) (content file_name id : String) (ping : ℕ) (d : Single)
    → is_wire_guard_content content ≡ not expected
    → is_open_vpn_content content file_name ≡ expected
    → on_load expected wanted content file_name id ping d
      ≡ record d { error = some (wrong_file expected) }
unfolding on_load
on_load-other expected wanted content file_name id ping d sections lines =
    rw (sections, lines, refusal-other expected) refl

single_profile-mixed :
    (content file_name id : String) (ping : ℕ)
    → is_wire_guard_content content ≡ true
    → let p = single_profile false content file_name id ping in
      (p.protocol ≡ ProtocolType.wireguard) × (p.tags ≡ "Imported" ∷ "OpenVPN" ∷ [])
unfolding single_profile new_profile parse_single parse_wanted
single_profile-mixed content file_name id ping sections = rw sections (refl, refl)

-- A file of both kinds that is dropped where an OpenVPN file is wanted is read for WireGuard's settings: the
-- parent gets a WireGuard profile, which is tagged as one for OpenVPN.
pub on_load-mixed :
    (content file_name id : String) (ping : ℕ) (d : Single)
    → is_wire_guard_content content ≡ true
    → is_open_vpn_content content file_name ≡ true
    → let p = single_profile false content file_name id ping in
      (on_load false true content file_name id ping d ≡ hand_over true p d)
      × (p.protocol ≡ ProtocolType.wireguard)
      × (p.tags ≡ "Imported" ∷ "OpenVPN" ∷ [])
unfolding on_load
on_load-mixed content file_name id ping d sections lines =
    let (protocol, tags) = single_profile-mixed content file_name id ping sections in
    (rw (sections, lines) refl, protocol, tags)
