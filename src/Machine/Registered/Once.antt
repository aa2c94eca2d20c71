-- ===== src/Machine/Registered/Once.antt =====
-- What the loading of the storage does to the listeners: none is placed twice.
use vpnhub.Prelude.{
  ◌+◌, ◌≤◌, ◌≡◌, ◌∙◌, refl, sym, ap, true, false, Bool-cases, inl, inr, Option, none, some, List,
  [], ◌∷◌, ◌++◌, arith, String, ◌&&◌, nonempty,
}
use vpnhub.Bridge.{Outcome, resolved, rejected, FullStorageSnapshotPayload}
use vpnhub.World.{Platform, World, Task, Listener, branch, defer, pass}
use vpnhub.Store.Logs.{add_log}
use vpnhub.Store.Storage.{
  register, setup_ipc_subscriptions, store_snapshot, resume_load, finish_load, resume_subscribed,
}
use vpnhub.Store.Telemetry.{ping_all_profiles}
use vpnhub.Machine.Settling.Weights.{total-append}
use vpnhub.Machine.Frame.{IsLight, Still}
use vpnhub.Machine.Loads.Still
use vpnhub.Machine.Registered.{count, awaits, placed, IsOnce}

count-append : (l : Listener) (ks ls : List Listener) → count l (ks ++ ls) ≡ count l ks + count l ls
count-append l [] ls = omega arith
count-append l (k ∷ ks) ls = omega (arith, count-append l ks ls)

awaits-IsLight : (l : Listener) → IsLight (awaits l)
awaits-IsLight l (Task.subscribed rest id) h = cc
awaits-IsLight l _ h = refl

-- What places no listener more often, and leaves the flag alone, keeps the invariant.
pub lower-IsOnce :
    (v w : World)
    → ((l : Listener) → placed l w ≤ placed l v)
    → w.ipc_subscribed ≡ v.ipc_subscribed
    → IsOnce v
    → IsOnce w
lower-IsOnce v w less same o = record {
  once = λ l. omega (arith, less l, o.once l);
  later = λ fresh l own. omega (arith, less l, o.later (sym same ∙ fresh) l own);
}

pub Still-IsOnce : (v w : World) → Still v w → IsOnce v → IsOnce w
Still-IsOnce v w (_, listeners, subscribed, weights) o =
    lower-IsOnce v w
      (λ l.
        let a = ap (count l) listeners in
        let b = weights (awaits l) (awaits-IsLight l) in omega (arith, a, b))
      subscribed o

register-placed :
    (platform : Platform) (k l : Listener) (w : World)
    → placed l (register platform k w) ≤ count l (k ∷ []) + placed l w
unfolding register branch
register-placed platform k l w = elim (Bool-cases platform.tauri) [
  | inl shell ↦ simp shell (omega (arith, count-append l w.listeners (k ∷ [])))
  | inr browser ↦ simp browser (omega arith)
]

register-subscribed :
    (platform : Platform) (k : Listener) (w : World)
    → (register platform k w).ipc_subscribed ≡ w.ipc_subscribed
unfolding register branch
register-subscribed platform k w = elim (Bool-cases platform.tauri) [
  | inl shell ↦ simp shell refl
  | inr browser ↦ simp browser refl
]

-- The four listeners are four.
own_once :
    (l : Listener)
    → count l (Listener.daemon_status ∷ [])
        + count l (Listener.vpn_status ∷ Listener.metrics ∷ Listener.tray_toggle ∷ [])
      ≤ 1
own_once Listener.health_mirror = omega arith
own_once Listener.daemon_status = omega arith
own_once Listener.vpn_status = omega arith
own_once Listener.metrics = omega arith
own_once Listener.tray_toggle = omega arith

-- What a fresh subscription places.
fresh-placed :
    (platform : Platform) (id : String) (l : Listener) (w : World)
    → w.ipc_subscribed ≡ false
    → placed l (setup_ipc_subscriptions platform id w)
      ≤ count l (Listener.daemon_status ∷ [])
        + count l (Listener.vpn_status ∷ Listener.metrics ∷ Listener.tray_toggle ∷ [])
        + placed l w
unfolding setup_ipc_subscriptions branch
fresh-placed platform id l w fresh =
    let v = register platform Listener.daemon_status (record w { ipc_subscribed = true }) in
    let a = total-append (awaits l) v.tasks (
      Task.subscribed (Listener.vpn_status ∷ Listener.metrics ∷ Listener.tray_toggle ∷ []) id
      ∷ []) in
    let b =
      register-placed platform Listener.daemon_status l (record w { ipc_subscribed = true }) in
    simp fresh (omega (arith, a, b))

setup_ipc_subscriptions-once :
    (platform : Platform) (id : String) (w : World) (l : Listener)
    → w.ipc_subscribed ≡ false
    → IsOnce w
    → placed l (setup_ipc_subscriptions platform id w) ≤ 1
setup_ipc_subscriptions-once platform id w Listener.health_mirror fresh o =
    let a = fresh-placed platform id Listener.health_mirror w fresh in
    let b = o.once Listener.health_mirror in omega (arith, a, b)
setup_ipc_subscriptions-once platform id w l fresh o =
    let a = fresh-placed platform id l w fresh in
    let b = o.later fresh l refl in let c = own_once l in omega (arith, a, b, c)

subscribed-again :
    (platform : Platform) (id : String) (w : World)
    → w.ipc_subscribed ≡ true
    → IsOnce w
    → IsOnce (setup_ipc_subscriptions platform id w)
unfolding setup_ipc_subscriptions branch
subscribed-again platform id w done o = simp done (
    lower-IsOnce w
      (record w { ipc_subscribed = true; tasks = w.tasks ++ Task.subscribed [] id ∷ [] })
      (λ l.
        let a = total-append (awaits l) w.tasks (Task.subscribed [] id ∷ []) in omega (arith, a))
      (sym done) o)

setup_ipc_subscriptions-subscribed :
    (platform : Platform) (id : String) (w : World)
    → w.ipc_subscribed ≡ false
    → (setup_ipc_subscriptions platform id w).ipc_subscribed ≡ true
unfolding setup_ipc_subscriptions branch
setup_ipc_subscriptions-subscribed platform id w fresh =
    simp fresh
      (register-subscribed platform Listener.daemon_status (record w { ipc_subscribed = true }))

setup_ipc_subscriptions-IsOnce :
    (platform : Platform) (id : String) (w : World)
    → IsOnce w
    → IsOnce (setup_ipc_subscriptions platform id w)
setup_ipc_subscriptions-IsOnce platform id w o = elim (Bool-cases w.ipc_subscribed) [
  | inl done ↦ subscribed-again platform id w done o
  | inr fresh ↦ record {
    once = λ l. setup_ipc_subscriptions-once platform id w l fresh o;
    later = λ unset l own. let set = setup_ipc_subscriptions-subscribed platform id w fresh in cc;
  }
]

pub resume_load-IsOnce :
    (platform : Platform) (o : Outcome (Option FullStorageSnapshotPayload)) (w : World)
    → IsOnce w
    → IsOnce (resume_load platform o w)
unfolding resume_load store_snapshot add_log
resume_load-IsOnce platform (resolved none) w o = lower-IsOnce w _ (λ l. omega arith) refl o
resume_load-IsOnce platform (resolved (some s)) w o =
    setup_ipc_subscriptions-IsOnce platform _ _ (lower-IsOnce w _ (λ l. omega arith) refl o)
resume_load-IsOnce platform (rejected e) w o = lower-IsOnce w _ (λ l. omega arith) refl o

finish_load-IsOnce :
    (platform : Platform) (id : String) (w : World) → IsOnce w → IsOnce (finish_load platform id w)
unfolding finish_load
finish_load-IsOnce platform id w o =
    let v = ping_all_profiles platform w in
    let timer = defer (Task.auto_connect id) in
    let u = branch (v.store.app_settings.auto_connect && nonempty id) timer pass v in
    let pinged = Still-IsOnce w v (Still.ping_all_profiles-Still platform w) o in
    let timed =
      Still-IsOnce v u
        (Still.branch-Still _ timer pass v v (Still.defer-Still (Task.auto_connect id) v refl)
          (refl, refl, refl, λ g light. refl))
        pinged in
    lower-IsOnce u _ (λ l. omega arith) refl timed

-- The pending task that is taken out is to register `rest`.
pub resume_subscribed-IsOnce :
    (platform : Platform) (rest : List Listener) (id : String) (o : Outcome (Unit {0}))
    (v w : World)
    → ((l : Listener) → placed l v ≡ count l rest + placed l w)
    → w.ipc_subscribed ≡ v.ipc_subscribed
    → IsOnce v
    → IsOnce (resume_subscribed platform rest id o w)
unfolding resume_subscribed
resume_subscribed-IsOnce platform [] id (resolved r) v w e same i =
    finish_load-IsOnce platform id w (lower-IsOnce v w (λ l. omega (arith, e l)) same i)
resume_subscribed-IsOnce platform (k ∷ rest) id (resolved r) v w e same i =
    lower-IsOnce v _
      (λ l.
        let a = register-placed platform k l w in
        let b =
          total-append (awaits l) (register platform k w).tasks (Task.subscribed rest id ∷ []) in
        omega (arith, a, b, e l))
      (register-subscribed platform k w ∙ same) i
resume_subscribed-IsOnce platform [] id (rejected m) v w e same i =
    lower-IsOnce v _ (λ l. omega (arith, e l)) same i
resume_subscribed-IsOnce platform (k ∷ rest) id (rejected m) v w e same i =
    lower-IsOnce v _ (λ l. omega (arith, e l)) same i
