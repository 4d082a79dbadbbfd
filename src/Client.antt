-- ===== src/Client.antt =====
-- client.py: the sub-clients and the request loop that they share.
pub mod Retry
pub mod Samples
pub mod Request
pub mod Session
pub mod Endpoint
pub mod Pages
pub mod Entitlements
pub mod Licenses
pub mod MachineBodies
pub mod MachineCalls
pub mod Components
pub mod Processes
pub mod Account
pub mod Artifacts
pub mod Health
pub mod Changes
pub mod Credential
pub mod Machines
pub mod Heartbeat
