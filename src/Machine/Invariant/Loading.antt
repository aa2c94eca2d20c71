-- ===== src/Machine/Invariant/Loading.antt =====
-- `loadStorage` keeps an invariant.
use vpnhub.Prelude.{String, Bool, Option, none, some, List, [], ◌∷◌, refl}
use vpnhub.Bridge.{Outcome, resolved, rejected, FullStorageSnapshotPayload}
use vpnhub.World.{Platform, World, Listener}
use vpnhub.Machine.Invariant.{IsInvariant}
use vpnhub.Machine.Invariant.Actions.{keeps-invoke, keeps-if}
use vpnhub.Store.Storage
use vpnhub.Machine.Invariant.Connecting.{keeps-connect}
use vpnhub.Machine.Invariant.Telemetry.{keeps-ping_all_profiles}

module _ (platform : Platform) {P : World → Type 0} (I : IsInvariant platform P) where
  pub keeps-load_storage :
      {w : World} (force : Bool) → P w → P (Storage.load_storage platform force w)
  unfolding Storage.load_storage
  keeps-load_storage force p =
      keeps-if platform I _ _ _ p (λ q. q)
        (λ q. I.tasks (keeps-invoke platform I _ refl (I.loading q)))

  pub keeps-register : {w : World} (l : Listener) → P w → P (Storage.register platform l w)
  unfolding Storage.register
  keeps-register l p =
      keeps-if platform I _ _ _ (keeps-invoke platform I _ refl p) (I.listen l) (λ q. q)

  keeps-setup_ipc_subscriptions :
      {w : World} (id : String) → P w → P (Storage.setup_ipc_subscriptions platform id w)
  unfolding Storage.setup_ipc_subscriptions
  keeps-setup_ipc_subscriptions id p =
      keeps-if platform I _ _ _ p I.tasks
        (λ q. I.tasks (keeps-register Listener.daemon_status (I.subscribed q)))

  pub keeps-resume_load :
      {w : World} (o : Outcome (Option FullStorageSnapshotPayload))
      → P w
      → P (Storage.resume_load platform o w)
  unfolding Storage.resume_load Storage.store_snapshot
  keeps-resume_load (resolved none) p = I.loading p
  keeps-resume_load (resolved (some snapshot)) p =
      keeps-setup_ipc_subscriptions _ (I.log _ _ _ (I.quiet p refl refl))
  keeps-resume_load (rejected e) p = I.loading p

  keeps-finish_load : {w : World} (id : String) → P w → P (Storage.finish_load platform id w)
  unfolding Storage.finish_load
  keeps-finish_load id p =
      I.loading (keeps-if platform I _ _ _ (keeps-ping_all_profiles platform I p) I.tasks (λ q. q))

  pub keeps-resume_subscribed :
      {w : World} (rest : List Listener) (id : String) (o : Outcome (Unit {0}))
      → P w
      → P (Storage.resume_subscribed platform rest id o w)
  unfolding Storage.resume_subscribed
  keeps-resume_subscribed [] id (resolved _) p = keeps-finish_load id p
  keeps-resume_subscribed (l ∷ rest) id (resolved _) p = I.tasks (keeps-register l p)
  keeps-resume_subscribed [] id (rejected e) p = I.loading p
  keeps-resume_subscribed (l ∷ rest) id (rejected e) p = I.loading p

  pub keeps-fire_auto_connect :
      {w : World} (id : String) → P w → P (Storage.fire_auto_connect platform id w)
  unfolding Storage.fire_auto_connect
  keeps-fire_auto_connect id p =
      keeps-if platform I _ _ _ p (keeps-connect platform I _ none) (λ q. q)
