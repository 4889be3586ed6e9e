-- ===== src/Tests.antt =====
-- Runs of the model on concrete inputs, and the theorems applied to them.
pub mod Tokenize
pub mod Search
pub mod Config
pub mod Graph
pub mod Index
pub mod Server
pub mod Auth
pub mod Upload
pub mod Store
pub mod Fetch
pub mod Crud
pub mod Expand
