-- ===== src/Machine/LogIds.antt =====
-- The ids of the log entries. Each comes from a reading of the random source of its own.
use vpnhub.Prelude.{
  ℕ, zero, suc, ◌≤◌, ◌<◌, ◌≡◌, ◌≢◌, refl, sym, ◌∙◌, subst, String, List, [], ◌∷◌, ◌++◌, arith, drop,
  All,
}
use vpnhub.Types.{LogEntry, LogLevel}
use vpnhub.World.{Platform, World}
use vpnhub.Store.Initial.{SavedSettings, initial_world}
use vpnhub.Store.Logs.{add_log, clear_logs}
use vpnhub.Machine.{Event, boot, run}
use vpnhub.Machine.Invariant.{IsInvariant}
use vpnhub.Machine.Invariant.Events.{keeps-run, keeps-boot}

abbrev pub Distinct : List LogEntry → Type 0
Distinct [] = Unit
Distinct (e ∷ es) = All (λ d. d.id ≢ e.id) es × Distinct es

module _ (platform : Platform) where
  -- The ids come from readings from `lo` on and before `hi`, in this order.
  abbrev Readings : ℕ → ℕ → List LogEntry → Type 0
  Readings lo hi [] = lo ≤ hi
  Readings lo hi (e ∷ es) =
      (k : ℕ) × (lo ≤ k) × (e.id ≡ platform.random_uuid k) × Readings (suc k) hi es

  Readings-le :
      (lo lo' hi : ℕ) (es : List LogEntry) → lo' ≤ lo → Readings lo hi es → Readings lo' hi es
  Readings-le lo lo' hi [] h r = omega arith
  Readings-le lo lo' hi (e ∷ es) h (k, l, i, r) = (k, omega arith, i, r)

  Readings-suc : (lo hi : ℕ) (es : List LogEntry) → Readings lo hi es → Readings lo (suc hi) es
  Readings-suc lo hi [] r = omega arith
  Readings-suc lo hi (e ∷ es) (k, l, i, r) = (k, l, i, Readings-suc (suc k) hi es r)

  Readings-append :
      (lo hi : ℕ) (es : List LogEntry) (e : LogEntry)
      → e.id ≡ platform.random_uuid hi
      → Readings lo hi es
      → Readings lo (suc hi) (es ++ e ∷ [])
  Readings-append lo hi [] e i r = (hi, r, i, omega arith)
  Readings-append lo hi (d ∷ es) e i (k, l, j, r) = (k, l, j, Readings-append (suc k) hi es e i r)

  Readings-drop :
      (n lo hi : ℕ) (es : List LogEntry) → Readings lo hi es → Readings lo hi (drop n es)
  Readings-drop zero lo hi es r = r
  Readings-drop (suc n) lo hi [] r = r
  Readings-drop (suc n) lo hi (e ∷ es) (k, l, i, r) =
      Readings-le (suc k) lo hi (drop n es) (omega arith) (Readings-drop n (suc k) hi es r)

  abbrev HasReadings : World → Type 0
  HasReadings w = Readings 0 w.reads w.store.logs

  add_log-HasReadings :
      (w : World) (level : LogLevel) (source message : String)
      → HasReadings w
      → HasReadings (add_log platform level source message w)
  unfolding add_log
  add_log-HasReadings w level source message r =
      Readings-append 0 w.reads _ _ refl (Readings-drop _ 0 w.reads w.store.logs r)

  clear_logs-HasReadings : (w : World) → HasReadings w → HasReadings (clear_logs w)
  unfolding clear_logs
  clear_logs-HasReadings w r = omega arith

  HasReadings-invariant : IsInvariant platform HasReadings
  HasReadings-invariant = record {
    quiet = λ {w} p l t. subst (Readings 0 w.reads) (sym l) p;
    point = λ {w} q p l t. subst (Readings 0 w.reads) (sym l) p;
    log = λ level source message p. add_log-HasReadings _ level source message p;
    clear = λ p. clear_logs-HasReadings _ p;
    effect = λ p h. p;
    request = λ profile settings password p. p;
    tasks = λ p. p;
    listen = λ l p. p;
    subscribed = λ p. p;
    loading = λ p. p;
    notified = λ p. p;
    reading = λ {w} p. Readings-suc 0 w.reads w.store.logs p;
  }

  initial_world-HasReadings : (saved : SavedSettings) → HasReadings (initial_world platform saved)
  unfolding initial_world
  initial_world-HasReadings saved = omega arith

  module _ (injective : (m n : ℕ) → platform.random_uuid m ≡ platform.random_uuid n → m ≡ n) where
    fresh_id :
        (k : ℕ) (id : String) (lo hi : ℕ) (es : List LogEntry)
        → id ≡ platform.random_uuid k
        → k < lo
        → Readings lo hi es
        → All (λ d. d.id ≢ id) es
    fresh_id k id lo hi [] e h r = tt
    fresh_id k id lo hi (d ∷ es) e h (m, l, i, r) = (
      λ same. absurd (omega (arith, injective m k (sym i ∙ same ∙ e))),
      fresh_id k id (suc m) hi es e (omega arith) r,
    )

    Readings-Distinct : (lo hi : ℕ) (es : List LogEntry) → Readings lo hi es → Distinct es
    Readings-Distinct lo hi [] r = tt
    Readings-Distinct lo hi (e ∷ es) (k, l, i, r) =
        (fresh_id k e.id (suc k) hi es i (omega arith) r, Readings-Distinct (suc k) hi es r)

    -- If no two readings of the random source agree, then after any events no two entries of the log
    -- have the same id.
    pub run-Distinct :
        (saved : SavedSettings) (es : List Event)
        → Distinct (run platform (boot platform saved) es).store.logs
    run-Distinct saved es = Readings-Distinct 0 _ _ (
        keeps-run platform HasReadings-invariant es
          (keeps-boot platform HasReadings-invariant saved (initial_world-HasReadings saved)))
