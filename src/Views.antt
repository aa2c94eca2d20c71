-- ===== src/Views.antt =====
-- packages/app/src/components: what the views compute and call, without their rendering. A handler
-- runs with the state `seen` of the store at the last rendering, and on the world as it is by then.
pub mod Text
pub mod Trim
pub mod Logs
pub mod Deck
pub mod Subnets
pub mod Form
pub mod Certificates
pub mod Prompt
pub mod Power
pub mod Pane
pub mod Dialogs
pub mod Autostart
pub mod Import
