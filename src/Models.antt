-- ===== src/Models.antt =====
-- models/: the resources that the SDK hands out.
pub mod SigningKey
pub mod Machine
pub mod Validation
pub mod Policy
pub mod Enum
pub mod Reader
pub mod Records
pub mod Resources
pub mod Meta
pub mod License
