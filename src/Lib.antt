-- ===== src/Lib.antt =====
-- The client of VPNHub: the store packages/app/src/state/useVpnStore.ts, the bridge to the desktop
-- shell packages/app/src/services/ipcBridge.ts, the one-time codes packages/app/src/utils/totp.ts
-- and the data types packages/app/src/types/vpn.ts. The views call the actions of the store; the
-- store calls methods of the bridge, and listens to the channels of the daemon; before a handshake
-- it may ask for a one-time code. The views are in packages/app/src/components.
--
-- Types (with Types/Equality) is types/vpn.ts: an interface is a record, a union of texts a data
-- type, an optional property an `Option`. A speed, which the source rounds to one decimal, is a
-- whole number of tenths.
--
-- Bridge is ipcBridge.ts. A method is the command that it invokes, none outside the shell, and the
-- way in which it turns the outcome of the command into its own: most methods swallow a rejection,
-- some pass it on. Bridge/Methods has the methods that the store calls, Bridge/Windows those for the
-- window.
--
-- Totp is totp.ts: `base32ToBytes`, `generateCode` and `getRemainingSeconds`. HMAC-SHA-1, which the
-- browser computes, is a parameter.
--
-- World is the state: `VpnStoreState` and the variables of the module, with what the platform holds
-- for them (listeners, pending promises, the effects so far). An action is a function on the world.
-- An `async` function is cut at each `await`: the rest is a `Task` with the variables it has
-- captured. What the clock and the random source give is a function of the number of readings so
-- far.
--
-- Store has the actions of the store by groups: Initial (the initial state, `getSavedAppSettings`),
-- Logs (`addLog`), Profiles, Rules, Settings, Connection (`connect`, `disconnect`,
-- `retryDaemonIpc`), Telemetry (`tickTelemetry`, the metrics, the pings), Subscriptions (the other
-- listeners) and Storage (`loadStorage` with `setupIpcSubscriptions`). Their laws stand in child
-- modules.
--
-- Machine is the module as a whole: `boot` is what its last lines do, `step` one event (a call of an
-- action, a message of a channel, a promise that settles with an outcome of the environment's
-- choice), `run` any sequence of them. Machine/Invariant says what a property must survive to hold
-- after every run, and has one lemma for each action. Machine/States has the state of the connection
-- as an abstract machine, with the moves that each cause allows, Machine/Settling weighs what is
-- pending, so that settlements come to an end, Machine/Loads keeps what ends a loading, and
-- Machine/Registered counts the listeners that are registered or awaited; Machine/Frame says which
-- actions leave the connection, the loading and the listeners alone.
--
-- Views is packages/app/src/components, as far as it computes: the filter, the counts and the export
-- of the log console (Logs), the order of the deck and the filters of the library and the palette
-- (Deck), the form for profiles (Form, with the field for subnets in Subnets), the dialog for
-- certificates (Certificates), the prompt for a password (Prompt), the power buttons and the print
-- of the uptime (Power), with the tooltip of the cockpit's button, the dialogs for rules, for the
-- settings and for diagnostics (Dialogs), the start with the desktop (Autostart), the side bar with
-- what the browser keeps of it (Pane), and the import of configuration files (Import):
-- `parseConfigContent` (Config), the dialog in which files are given (Hub), as steps in any order,
-- what the form makes of a file (Saved), and the dialog for one protocol, ImportProfileModal.tsx
-- (Single), which no view uses. A handler is an action; what it reads from the last rendering is an
-- argument. Import/Regex has the regular expressions as data, with a matcher that goes back, and
-- Import/Patterns those of the source, one by one. Letter case is that of ASCII (Text); the sort of
-- the deck, which is stable, is an insertion.
--
-- I18n is packages/app/src/i18n: a record for the texts (Dictionary), one value of it for each
-- language, in parts (En, Vi, Zh, Fr), the language that is shown, and the texts that the views fill
-- in with `replace`, which reads a `$` in the value.
--
-- Prelude holds what the files share: Boolean tests, lists, integers, texts and the print of
-- numbers. Tests runs the model, and the theorems, on concrete worlds.
--
-- The program has no unbounded loop. The print of a number runs on fuel, the number itself, and a
-- number has at most that many digits and one.
--
-- Not modelled: the rendering of the views, their prints of floating-point numbers and the dialogs
-- that only call an action; the theme and the mock data, which hold no state of the program; the
-- shell and the daemon, which are written in Rust and meet the store only through commands and
-- outcomes; `console.warn` and the console.
pub mod Prelude
pub mod Types
pub mod Bridge
pub mod Totp
pub mod World
pub mod Store
pub mod Machine
pub mod Views
pub mod I18n
mod Tests
