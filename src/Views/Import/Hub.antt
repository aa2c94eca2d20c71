-- ===== src/Views/Import/Hub.antt =====
-- The dialog in which configuration files are dropped or chosen (components/profiles/NewProfileHubModal.tsx),
-- with the library that opens it (components/profiles/ProfileLibraryView.tsx). An asynchronous handler is
-- cut where it waits: files that are being read, and profiles whose timer runs, are part of the state.
pub mod Reach
use Prim.Native.Char.{Char, code}
use vpnhub.Prelude.{
  ℕ, String, ◌<>◌, Bool, true, false, ◌||◌, Option, none, some, List, [], ◌∷◌, ◌++◌, ◌==◌,
  if◌then◌else◌, or_text, nonempty,
}
use vpnhub.Types.{ProtocolType, VpnProfile}
use vpnhub.Views.Form.{DefaultProtocol, is_wireguard}
use vpnhub.Views.Import.Config.{parse_config_content}

-- The message that is shown; the first two are translated.
pub data HubError : Type 0 where
  wireguard_coming_soon failed_read_file : HubError
  message : String → HubError

-- How the file has been given, which is a difference only if it cannot be read.
pub data Source : Type 0 where
  dropped : (path : String) → Source
  chosen : Source

-- What comes of the reading: the text, or an error, with its `message` if it has one.
pub data ReadOutcome : Type 0 where
  content_read : String → ReadOutcome
  failed : (text : Option String) → ReadOutcome

pub record Reading : Type 0 where
  pub file_name : String
  pub source : Source

pub record Hub : Type 0 where
  pub is_hub_modal_open : Bool
  pub error : Option HubError
  pub is_dragging_over : Bool
  pub is_loading : Bool
  pub loading_file_name : String
  pub readings : List Reading
  pub timers : List VpnProfile
  pub selected_profile : Option VpnProfile
  pub chosen_protocol : DefaultProtocol
  pub is_profile_modal_open : Bool

abbrev is_separator : ℕ → Bool
is_separator c = c == b'/' || c == 92

has_separator : String → Bool
has_separator String.[] = false
has_separator (String.◌∷◌ c s) = is_separator (code c) || has_separator s

-- `path.split(/[/\\]/).pop()`
last_part : String → String
unfolding has_separator
last_part String.[] = ""
last_part (String.◌∷◌ c s) =
    let rest = last_part s in
    if has_separator s then rest else if is_separator (code c) then s else String.◌∷◌ c s

unfoldable pub start_reading : String → Source → Hub → Hub
start_reading file_name source h = record h {
  loading_file_name = file_name;
  is_loading = true;
  readings = h.readings ++ record { file_name = file_name; source = source } ∷ [];
}

-- The listener of the desktop shell, for a drop.
unfoldable pub drop_paths : List String → Hub → Hub
unfolding last_part start_reading
drop_paths [] h = record h { is_dragging_over = false }
drop_paths (path ∷ paths) h =
    start_reading (or_text (some (last_part path)) "profile.ovpn") (Source.dropped path)
      (record h { is_dragging_over = false })

-- `handleFiles`, with the names of the files.
unfoldable pub handle_files : List String → Hub → Hub
unfolding start_reading
handle_files [] h = record h { error = none; is_dragging_over = false }
handle_files (name ∷ names) h =
    start_reading name Source.chosen (record h { error = none; is_dragging_over = false })

abbrev read_error : Source → Option String → HubError
read_error (Source.dropped path) text =
    HubError.message (or_text text ("Failed to read file: " <> path))
read_error Source.chosen text = HubError.failed_read_file

-- The rest, when the file has been read.
unfoldable pub accept_profile : VpnProfile → Hub → Hub
accept_profile parsed h =
    if is_wireguard parsed.protocol
    then record h { is_loading = false; error = some HubError.wireguard_coming_soon }
    else record h { timers = h.timers ++ parsed ∷ [] }

unfoldable pub finish_reading : Reading → ReadOutcome → String → ℕ → Hub → Hub
unfolding accept_profile
finish_reading r (ReadOutcome.content_read content) id ping h =
    accept_profile (parse_config_content content r.file_name id ping) h
finish_reading r (ReadOutcome.failed text) id ping h = record h {
  is_loading = false;
  error = some (read_error r.source text);
}

-- The dialog is closed, and its effect resets it.
unfoldable pub close_hub : Hub → Hub
close_hub h = record h {
  is_hub_modal_open = false;
  error = none;
  is_dragging_over = false;
  is_loading = false;
  loading_file_name = "";
}

abbrev protocol_for : VpnProfile → DefaultProtocol
protocol_for p =
    if is_wireguard p.protocol then DefaultProtocol.wireguard else DefaultProtocol.openvpn

-- `handleEdit`, which is what `onImportParsed` does too.
unfoldable pub handle_edit : VpnProfile → Hub → Hub
handle_edit p h = record h {
  selected_profile = some p;
  chosen_protocol = protocol_for p;
  is_profile_modal_open = true;
}

-- `onSelectManualCreate`
unfoldable pub select_manual_create : DefaultProtocol → Hub → Hub
select_manual_create protocol h = record h {
  chosen_protocol = protocol;
  selected_profile = none;
  is_profile_modal_open = true;
}

-- The timer's callback.
unfoldable pub open_imported : VpnProfile → Hub → Hub
unfolding close_hub handle_edit
open_imported p h = handle_edit p (close_hub (record h { is_loading = false }))
