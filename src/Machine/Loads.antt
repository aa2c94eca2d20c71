-- ===== src/Machine/Loads.antt =====
-- While the storage counts as being loaded, something is pending that ends the loading.
pub mod Still
pub mod Listeners
pub mod Channels
pub mod Steps
pub mod Ends
use vpnhub.Prelude.{ℕ, ◌≡◌, ◌<◌, true}
use vpnhub.World.{World}
use vpnhub.Machine.Frame.{loading_total}

abbrev pub IsAwaited : World → Type 0
IsAwaited w = w.is_storage_loading ≡ true → 0 < loading_total w
