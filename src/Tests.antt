-- ===== src/Tests.antt =====
-- The theorems at concrete inputs, and runs of the model.
mod Data
mod Codes
mod Runs
mod Connecting
mod Racing
mod Laws
mod Screens
mod Importing
mod Settling
mod Single
mod Languages
