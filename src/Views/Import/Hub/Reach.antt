-- ===== src/Views/Import/Hub/Reach.antt =====
-- The states that the dialog for files can come to, in any order of its events.
use vpnhub.Prelude.{
  ℕ, ◌≡◌, ◌≢◌, refl, subst, inl, inr, String, Bool, true, false, none, List, [], ◌∷◌, ◌++◌, All,
  All-append, Bool-cases,
}
use vpnhub.Types.{VpnProfile}
use vpnhub.Views.Form.{DefaultProtocol, is_wireguard}
use vpnhub.Views.Import.Config.{parse_config_content}
use vpnhub.Views.Import.Hub.{
  Hub, Reading, ReadOutcome, Source, start_reading, drop_paths, handle_files, accept_profile,
  finish_reading, close_hub, handle_edit, select_manual_create, open_imported,
}

-- One event. A file is read, and a timer runs out, in any order.
pub data Step : Hub → Hub → Type 0 where
  dragged :
      {h : Hub} (over : Bool)
      → h.is_hub_modal_open ≡ true
      → Step h (record h { is_dragging_over = over })
  dropped :
      {h : Hub} (paths : List String) → h.is_hub_modal_open ≡ true → Step h (drop_paths paths h)
  picked :
      {h : Hub} (names : List String) → h.is_hub_modal_open ≡ true → Step h (handle_files names h)
  read :
      {h : Hub} (before after : List Reading) (r : Reading) (o : ReadOutcome) (id : String)
      (ping : ℕ)
      → h.readings ≡ before ++ r ∷ after
      → Step h (finish_reading r o id ping (record h { readings = before ++ after }))
  elapsed :
      {h : Hub} (before after : List VpnProfile) (p : VpnProfile)
      → h.timers ≡ before ++ p ∷ after
      → Step h (open_imported p (record h { timers = before ++ after }))
  opened : {h : Hub} → Step h (record h { is_hub_modal_open = true })
  closed : {h : Hub} → Step h (close_hub h)
  edited : {h : Hub} (p : VpnProfile) → Step h (handle_edit p h)
  created : {h : Hub} (protocol : DefaultProtocol) → Step h (select_manual_create protocol h)

abbrev pub empty_hub : Hub
empty_hub = record {
  is_hub_modal_open = false;
  error = none;
  is_dragging_over = false;
  is_loading = false;
  loading_file_name = "";
  readings = [];
  timers = [];
  selected_profile = none;
  chosen_protocol = DefaultProtocol.wireguard;
  is_profile_modal_open = false;
}

pub data Reachable : Hub → Type 0 where
  initial : Reachable empty_hub
  further : {h k : Hub} → Reachable h → Step h k → Reachable k

-- A profile that the dialog may open.
abbrev pub IsSupported : VpnProfile → Type 0
IsSupported p = is_wireguard p.protocol ≡ false

-- Nothing is being read and no timer runs.
abbrev pub IsQuiet : Hub → Type 0
IsQuiet h = (h.readings ≡ []) × (h.timers ≡ [])

abbrev pub Holds : Hub → Type 0
Holds h = All IsSupported h.timers × (IsQuiet h → h.is_loading ≡ false)

snoc-nonempty : {A : Type 0} (xs : List A) (x : A) → xs ++ x ∷ [] ≢ []
snoc-nonempty [] x = λ e. cc
snoc-nonempty (y ∷ xs) x = λ e. cc

-- The one in the middle, and the others.
All-middle :
    {A : Type 0} (P : A → Type 0) (before after : List A) (x : A)
    → All P (before ++ x ∷ after)
    → P x × All P (before ++ after)
All-middle P [] after x (h, hs) = (h, hs)
All-middle P (y ∷ before) after x (h, hs) =
    let (found, others) = All-middle P before after x hs in (found, (h, others))

accept_profile-Holds :
    (p : VpnProfile) (h : Hub) → All IsSupported h.timers → Holds (accept_profile p h)
unfolding accept_profile
accept_profile-Holds p h supported = elim (Bool-cases (is_wireguard p.protocol)) [
  | inl e ↦ rw e (supported, λ q. refl)
  | inr e ↦ rw e (
    All-append IsSupported h.timers (p ∷ []) supported (e, tt),
    λ (r, t). absurd (snoc-nonempty h.timers p t),
  )
]

finish_reading-Holds :
    (r : Reading) (o : ReadOutcome) (id : String) (ping : ℕ) (h : Hub)
    → All IsSupported h.timers
    → Holds (finish_reading r o id ping h)
unfolding finish_reading
finish_reading-Holds r (ReadOutcome.content_read content) id ping h supported =
    accept_profile-Holds (parse_config_content content r.file_name id ping) h supported
finish_reading-Holds r (ReadOutcome.failed text) id ping h supported = (supported, λ q. refl)

start_reading-Holds :
    (name : String) (source : Source) (h : Hub)
    → All IsSupported h.timers
    → Holds (start_reading name source h)
unfolding start_reading
start_reading-Holds name source h supported =
    (supported, λ (r, t). absurd (snoc-nonempty h.readings _ r))

Step-Holds : {h k : Hub} → Step h k → Holds h → Holds k
unfolding drop_paths handle_files close_hub handle_edit select_manual_create open_imported
Step-Holds (dragged over o) i = i
Step-Holds (dropped [] o) i = i
Step-Holds (dropped {h} (path ∷ paths) o) (supported, quiet) =
    start_reading-Holds _ _ (record h { is_dragging_over = false }) supported
Step-Holds (picked [] o) i = i
Step-Holds (picked {h} (name ∷ names) o) (supported, quiet) =
    start_reading-Holds _ _ (record h { error = none; is_dragging_over = false }) supported
Step-Holds (read before after r o id ping e) (supported, quiet) =
    finish_reading-Holds r o id ping _ supported
Step-Holds (elapsed before after p e) (supported, quiet) =
    let (found, others) =
      All-middle IsSupported before after p (subst (All IsSupported) e supported) in
    (others, λ q. refl)
Step-Holds opened i = i
Step-Holds closed (supported, quiet) = (supported, λ q. refl)
Step-Holds (edited p) i = i
Step-Holds (created protocol) i = i

-- In every state that the dialog for files can come to, no profile for WireGuard waits to be opened, and
-- it shows that it is loading only while a file is being read or a profile waits: it cannot be stuck.
pub Reachable-Holds : (h : Hub) → Reachable h → Holds h
Reachable-Holds h initial = (tt, λ q. refl)
Reachable-Holds h (further r s) = Step-Holds s (Reachable-Holds _ r)
