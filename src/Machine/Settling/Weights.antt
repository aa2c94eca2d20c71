-- ===== src/Machine/Settling/Weights.antt =====
-- Sums of weights over the pending tasks, and what the actions that `connect` and `loadStorage` are
-- made of add to them.
use vpnhub.Prelude.{
  ℕ, zero, suc, ◌+◌, ◌≤◌, ◌≡◌, refl, true, false, Bool, Option, none, some, List, [], ◌∷◌, ◌++◌,
  arith, String, Bool-cases, inl, inr, ◌&&◌, not, nonempty, get_or, ◌==◌,
}
use vpnhub.Types.{VpnProfile, SecuritySettings}
use vpnhub.Bridge.{Command}
use vpnhub.Bridge.Methods.{connect_vpn}
use vpnhub.World.{Platform, Action, World, Task, VpnStoreState, branch, defer, invoke_request}
use vpnhub.Machine.{task_at, remove_at}
use vpnhub.Store.Logs.{add_log}
use vpnhub.Store.Connection.{
  connect_params, start_otp, send_request, begin_connect, connect_chosen, connect, resume_otp,
}
use vpnhub.Store.Telemetry.{ping_one, ping_each, ping_all_profiles}
use vpnhub.Machine.Settling.{total, loading_weight, handshake_weight}

pub total-append : (f : Task → ℕ) (ts us : List Task) → total f (ts ++ us) ≡ total f ts + total f us
total-append f [] us = omega arith
total-append f (t ∷ ts) us = omega (arith, total-append f ts us)

pub total-remove_at :
    (f : Task → ℕ) (n : ℕ) (ts : List Task) (t : Task)
    → task_at n ts ≡ some t
    → total f ts ≡ f t + total f (remove_at n ts)
total-remove_at f zero [] t h = cc
total-remove_at f (suc n) [] t h = cc
total-remove_at f zero (u ∷ ts) t h = grind arith
total-remove_at f (suc n) (u ∷ ts) t h = omega (arith, total-remove_at f n ts t h)

total-invoke_request :
    (f : Task → ℕ) (c : Option Command) (w : World)
    → total f (invoke_request c w).tasks ≡ total f w.tasks
total-invoke_request f none w = refl
total-invoke_request f (some c) w = refl

pub total-call :
    (f : Task → ℕ) (c : Option Command) (t : Task) (w : World)
    → total f (defer t (invoke_request c w)).tasks ≡ f t + total f w.tasks
total-call f c t w =
    omega (arith, total-invoke_request f c w, total-append f (invoke_request c w).tasks (t ∷ []))

-- Nothing more is loaded, and the handshakes weigh at most this much more.
abbrev pub Starts : ℕ → List Task → List Task → Type 0
Starts n ts us =
    (total loading_weight us ≡ total loading_weight ts)
    × (total handshake_weight us ≤ n + total handshake_weight ts)

pub Starts-defer :
    (t : Task) (ts : List Task) (n : ℕ)
    → loading_weight t ≡ 0
    → handshake_weight t ≤ n
    → Starts n ts (ts ++ t ∷ [])
Starts-defer t ts n l h = (
  omega (arith, total-append loading_weight ts (t ∷ [])),
  omega (arith, total-append handshake_weight ts (t ∷ [])),
)

pub Starts-call :
    (c : Option Command) (t : Task) (w : World) (n : ℕ)
    → loading_weight t ≡ 0
    → handshake_weight t ≤ n
    → Starts n w.tasks (defer t (invoke_request c w)).tasks
Starts-call c t w n l h = (
  omega (arith, total-call loading_weight c t w),
  omega (arith, total-call handshake_weight c t w),
)

pub Starts-branch :
    (b : Bool) (f g : Action) (w : World) (n : ℕ) (ts : List Task)
    → Starts n ts (f w).tasks
    → Starts n ts (g w).tasks
    → Starts n ts (branch b f g w).tasks
unfolding branch
Starts-branch true f g w n ts p q = p
Starts-branch false f g w n ts p q = q

pub send_request-Starts :
    (platform : Platform) (p : VpnProfile) (settings : SecuritySettings) (password : String)
    (w : World)
    → Starts 1 w.tasks (send_request platform p settings password w).tasks
unfolding send_request
send_request-Starts platform p settings password w =
    Starts-call (connect_vpn platform.tauri (connect_params p settings password)).request _ w 1 refl
      (omega arith)

pub resume_otp-Starts :
    (platform : Platform) (p : VpnProfile) (settings : SecuritySettings) (otp : String) (w : World)
    → Starts 1 w.tasks (resume_otp platform p settings otp w).tasks
unfolding resume_otp add_log
resume_otp-Starts platform p settings otp w = send_request-Starts platform p settings _ _

start_otp-Starts :
    (platform : Platform) (p : VpnProfile) (settings : SecuritySettings) (secret : String)
    (w : World)
    → Starts 2 w.tasks (start_otp platform p settings secret w).tasks
unfolding start_otp
start_otp-Starts platform p settings secret w = Starts-defer _ w.tasks 2 refl (omega arith)

begin_connect-Starts :
    (platform : Platform) (s : VpnStoreState) (p : VpnProfile) (password : Option String)
    (w : World)
    → Starts 2 w.tasks (begin_connect platform s p password w).tasks
unfolding begin_connect add_log
begin_connect-Starts platform s p password w =
    let (same, more) = send_request-Starts platform p s.security_settings (get_or password "") _ in
    Starts-branch _ _ _ _ 2 w.tasks (start_otp-Starts platform p _ _ _) (same, omega (arith, more))

connect_chosen-Starts :
    (platform : Platform) (s : VpnStoreState) (password : Option String) (p : Option VpnProfile)
    (w : World)
    → Starts 2 w.tasks (connect_chosen platform s password p w).tasks
unfolding connect_chosen
connect_chosen-Starts platform s password none w = (refl, omega arith)
connect_chosen-Starts platform s password (some p) w =
    Starts-branch _ _ _ w 2 w.tasks (refl, omega arith)
      (begin_connect-Starts platform s p password w)

pub connect-Starts :
    (platform : Platform) (id password : Option String) (w : World)
    → Starts 2 w.tasks (connect platform id password w).tasks
unfolding connect
connect-Starts platform id password w =
    Starts-branch _ _ _ w 2 w.tasks (refl, omega arith)
      (connect_chosen-Starts platform w.store password _ w)

ping_one-loading :
    (platform : Platform) (p : VpnProfile) (w : World)
    → total loading_weight (ping_one platform p w).tasks ≡ total loading_weight w.tasks
unfolding ping_one branch
ping_one-loading platform p w =
    elim (Bool-cases (nonempty p.server_host && not (p.server_port == 0))) [
      | inl known ↦
          simp known (omega (arith, total-call loading_weight _ (Task.ping_response p.id) w))
      | inr unknown ↦ simp unknown refl
    ]

ping_each-loading :
    (platform : Platform) (ps : List VpnProfile) (w : World)
    → total loading_weight (ping_each platform ps w).tasks ≡ total loading_weight w.tasks
unfolding ping_each
ping_each-loading platform [] w = refl
ping_each-loading platform (p ∷ ps) w =
    omega
      (arith, ping_each-loading platform ps (ping_one platform p w), ping_one-loading platform p w)

pub ping_all_profiles-loading :
    (platform : Platform) (w : World)
    → total loading_weight (ping_all_profiles platform w).tasks ≡ total loading_weight w.tasks
unfolding ping_all_profiles
ping_all_profiles-loading platform w = ping_each-loading platform w.store.profiles w
