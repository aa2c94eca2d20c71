-- ===== src/Bridge/Windows.antt =====
-- The methods of `IpcBridge` that move and close the window. All but three swallow a rejection.
use vpnhub.Prelude.{ℕ, String, Bool, Option, none, some}
use vpnhub.Bridge.{Command, Method, WindowCommand}
use vpnhub.Bridge.Methods.{call, recover, propagate}

abbrev pub Geometry : Type 0
Geometry = record { x : ℕ; y : ℕ; width : ℕ; height : ℕ }

abbrev start_dragging : Bool → Method (Unit {0}) (Unit {0})
start_dragging tauri =
    call tauri (Command.window WindowCommand.start_dragging) (recover (λ _. tt) tt) tt

abbrev start_resize_dragging : Bool → String → Method (Unit {0}) (Unit {0})
start_resize_dragging tauri direction =
    call tauri (Command.window (WindowCommand.start_resize_dragging direction))
      (recover (λ _. tt) tt) tt

abbrev window_minimize : Bool → Method (Unit {0}) (Unit {0})
window_minimize tauri = call tauri (Command.window WindowCommand.minimize) propagate tt

abbrev window_show : Bool → Method (Unit {0}) (Unit {0})
window_show tauri = call tauri (Command.window WindowCommand.show) (recover (λ _. tt) tt) tt

abbrev window_maximize : Bool → Method (Unit {0}) (Unit {0})
window_maximize tauri = call tauri (Command.window WindowCommand.toggle_maximize) propagate tt

abbrev window_close : Bool → Bool → Method (Unit {0}) (Unit {0})
window_close tauri minimize_to_tray =
    call tauri (Command.window (WindowCommand.close minimize_to_tray)) propagate tt

abbrev window_get_geometry : Bool → Method Geometry (Option Geometry)
window_get_geometry tauri =
    call tauri (Command.window WindowCommand.get_geometry) (recover some none) none

abbrev window_set_size : Bool → ℕ → ℕ → Method (Unit {0}) (Unit {0})
window_set_size tauri width height =
    call tauri (Command.window (WindowCommand.set_size width height)) (recover (λ _. tt) tt) tt

abbrev window_set_position : Bool → ℕ → ℕ → Method (Unit {0}) (Unit {0})
window_set_position tauri x y =
    call tauri (Command.window (WindowCommand.set_position x y)) (recover (λ _. tt) tt) tt
