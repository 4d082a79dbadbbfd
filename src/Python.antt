-- ===== src/Python.antt =====
-- What the SDK uses of the Python language and its standard library.
pub mod Str
pub mod Int
pub mod Exc
pub mod Json
pub mod Dumps
pub mod Base64
pub mod Hash
