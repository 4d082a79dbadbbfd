-- ===== src/Checkout.antt =====
-- checkout/: offline license and machine files.
pub mod Runtime
pub mod Envelope
pub mod KeySet
pub mod Claims
pub mod Documented
pub mod Samples
pub mod LicenseFile
pub mod MachineFile
