-- ===== src/Containers.antt =====
-- Python's `set` and `dict`.
pub mod PySet
pub mod PyDict
pub mod Distinct
