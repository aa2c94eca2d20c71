-- ===== src/Views/Prompt.antt =====
-- components/profiles/ConnectMfaModal.tsx, the prompt for a password and a one-time code, and
-- components/layout/AppShell.tsx, which shows it for the profile that `connect` has left in the store.
use vpnhub.Prelude.{
  ◌≡◌, refl, ap, ◌∙◌, String, ◌<>◌, true, false, Option, none, some, [], ◌∷◌, ◌++◌, if◌then◌else◌,
  nonempty, get_or, arith, or_text,
}
use vpnhub.Types.{ConnectionState, PasswordMode, TotpFormat, VpnProfile}
use vpnhub.Bridge.{Command, VpnConnectParams}
use vpnhub.World.{Platform, World, Action, Task, Effect, pass, ◌>>◌}
use vpnhub.Store.Profiles.{set_mfa_prompt_profile}
use vpnhub.Store.Connection.{
  credentials_of, connect, combine_otp, connect_params, is_connecting_or_connected,
}
use vpnhub.Store.Connection.Guards.{chosen, connect-request}
use vpnhub.Store.Connection.Races.{otp_password}
use vpnhub.Views.Trim.{trim}
use vpnhub.Views.Form.Again.{or_empty-some}

-- The fields of the prompt.
pub record Prompt : Type 0 where
  pub base_password : String
  pub totp_code : String

-- The prompt for a profile, as its effect fills it when it opens.
unfoldable pub open_prompt : VpnProfile → Prompt
open_prompt profile = record {
  base_password = or_text (credentials_of profile).password "";
  totp_code = "";
}

-- `combined`
unfoldable pub combined_password : Option TotpFormat → Prompt → String
combined_password format p =
    combine (get_or format TotpFormat.append) p.base_password (trim p.totp_code)
  where
    combine : TotpFormat → String → String → String
    combine TotpFormat.append base_password code = base_password <> code
    combine TotpFormat.prefix base_password code = code <> base_password
    combine TotpFormat.totp_only base_password code = if nonempty code then code else base_password

-- The prompt's `onConfirm` and `onClose`.
unfoldable pub confirm_prompt : Platform → Option VpnProfile → String → Action
confirm_prompt platform none password = pass
confirm_prompt platform (some profile) password = connect platform (some profile.id) (some password)

unfoldable pub close_prompt : Action
close_prompt = set_mfa_prompt_profile none

-- `handleSubmit`, on the profile that is prompted for.
unfoldable pub submit_prompt : Platform → VpnProfile → Prompt → Action
unfolding confirm_prompt close_prompt combined_password
submit_prompt platform profile p = do
  confirm_prompt platform (some profile) (combined_password (credentials_of profile).totp_format p)
  close_prompt

-- The prompt combines the password and the code that is typed in the way in which `connect` combines
-- the password and the code that it computes, but for the space around the typed code.
pub combined_password_lem :
    (format : Option TotpFormat) (p : Prompt)
    → combined_password format p ≡ combine_otp format p.base_password (trim p.totp_code)
unfolding combined_password combine_otp
combined_password_lem none p = refl
combined_password_lem (some TotpFormat.append) p = refl
combined_password_lem (some TotpFormat.prefix) p = refl
combined_password_lem (some TotpFormat.totp_only) p = refl

-- The password that goes out if the saved one is left as the prompt shows it.
prompt_password :
    (p : VpnProfile) (code : String)
    → combined_password (credentials_of p).totp_format (record (open_prompt p) { totp_code = code })
      ≡ otp_password p (trim code)
unfolding open_prompt
prompt_password p code =
    combined_password_lem (credentials_of p).totp_format
      (record (open_prompt p) { totp_code = code })
    ∙ ap (λ s. combine_otp (credentials_of p).totp_format s (trim code))
        (saved (credentials_of p).password)
  where
    saved : (s : Option String) → or_text s "" ≡ get_or s ""
    saved none = refl
    saved (some s) = or_empty-some s

-- What is submitted in the prompt for a profile is sent as what `connect` sends for a profile with a
-- stored secret: if the store is idle in the desktop shell and finds the profile under its id, one request
-- goes out with the password that the profile's format makes of the saved password, left as the prompt
-- shows it, and of the code as typed, but for the space around it. The prompt is closed by then, and the
-- profile, whose password is to be asked for, is the active one.
pub submit_prompt-request :
    (platform : Platform) (p : VpnProfile) (code : String) (w : World)
    → platform.tauri ≡ true
    → is_connecting_or_connected w.store.connection_state ≡ false
    → chosen w.store (some p.id) ≡ some p
    → (credentials_of p).password_mode ≡ some PasswordMode.dynamic_prompt
    → let v = submit_prompt platform p (record (open_prompt p) { totp_code = code }) w in
      let params = connect_params p w.store.security_settings (otp_password p (trim code)) in
      (v.store.connection_state ≡ ConnectionState.connecting)
      × (v.store.active_profile_id ≡ p.id)
      × (v.store.mfa_prompt_profile ≡ none)
      × (v.effects ≡ Effect.invoke (Command.vpn_connect params) ∷ w.effects)
      × (v.tasks ≡ w.tasks ++ Task.connect_response params ∷ [])
unfolding submit_prompt confirm_prompt close_prompt set_mfa_prompt_profile
submit_prompt-request platform p code w shell idle e mode =
    let c = credentials_of p in
    let prompt = record (open_prompt p) { totp_code = code } in
    let password = combined_password c.totp_format prompt in
    let same : password ≡ otp_password p (trim code) = prompt_password p code in
    let (up, active, effects, tasks) =
      connect-request platform (some p.id) (some password) w shell idle e (ground (arith, mode))
        (ground (arith, mode)) in
    (
      up,
      active,
      refl,
      effects ∙ ap (λ q. Effect.invoke (Command.vpn_connect (params q)) ∷ w.effects) same,
      tasks ∙ ap (λ q. w.tasks ++ Task.connect_response (params q) ∷ []) same,
    )
  where
    params : String → VpnConnectParams
    params = connect_params p w.store.security_settings
