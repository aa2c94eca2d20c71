-- ===== src/Store/Storage/Once.antt =====
-- `loadStorage` while the storage is being loaded, and the subscriptions after the first ones.
use vpnhub.Prelude.{◌≡◌, refl, Bool, true, false, ◌||◌, String, [], ◌∷◌, ◌++◌, Bool-cases, inl, inr}
use vpnhub.World.{Platform, World, Task, branch}
use vpnhub.Store.Storage.{load_storage, setup_ipc_subscriptions, register}

or-true : (b : Bool) → b || true ≡ true
or-true true = refl
or-true false = refl

-- A second `loadStorage` that is not forced, while the first waits for the disk or once it is loaded,
-- does nothing: the storage is asked for once.
pub load_storage-twice :
    (platform : Platform) (w : World)
    → load_storage platform false (load_storage platform false w) ≡ load_storage platform false w
unfolding load_storage branch
load_storage-twice platform w =
    elim (Bool-cases (w.store.is_storage_loaded || w.is_storage_loading)) [
      | inl skip ↦ rw (skip, skip) refl
      | inr go ↦ elim (Bool-cases platform.tauri) [
        | inl shell ↦ rw (go, shell, or-true w.store.is_storage_loaded) refl
        | inr browser ↦ rw (go, browser, or-true w.store.is_storage_loaded) refl
      ]
    ]

-- Subscribing again adds no listener and sends no command; only the end of the loading that asks for it
-- is awaited.
pub setup_ipc_subscriptions-twice :
    (platform : Platform) (first second : String) (w : World)
    → let v = setup_ipc_subscriptions platform first w in
      setup_ipc_subscriptions platform second v
      ≡ record v { tasks = v.tasks ++ Task.subscribed [] second ∷ [] }
unfolding setup_ipc_subscriptions register branch
setup_ipc_subscriptions-twice platform first second w = elim (Bool-cases w.ipc_subscribed) [
  | inl done ↦ rw done refl
  | inr fresh ↦ elim (Bool-cases platform.tauri) [
    | inl shell ↦ rw (fresh, shell) refl
    | inr browser ↦ rw (fresh, browser) refl
  ]
]
