-- ===== src/Engine/Tests.antt =====
-- The theorems of internal/engine at concrete inputs.
pub mod Calls
pub mod Parts
pub mod Files
