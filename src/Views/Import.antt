-- ===== src/Views/Import.antt =====
-- components/profiles/NewProfileHubModal.tsx: the import of a configuration file.
pub mod Regex
pub mod Matches
pub mod Patterns
pub mod Config
pub mod Words
pub mod Blocks
pub mod Runs
pub mod Remote
pub mod Hub
pub mod Saved
pub mod Single
