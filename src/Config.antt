-- ===== src/Config.antt =====
-- The configuration of a run, src/flawed/_config: parsing of values, the merge of files, and the override
-- blocks that apply to a repository.
pub mod Values
pub mod Deep
pub mod Schema
pub mod Parse
pub mod Blocks
pub mod Merge
pub mod Files
pub mod Match
pub mod Limits
pub mod Bounds
pub mod Types
pub mod Overrides
pub mod Entries
pub mod Groups
pub mod Providers
pub mod Settings
mod Samples
mod Tests
