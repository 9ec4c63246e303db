-- ===== src/Extern.antt =====
-- What the program takes from libjeffpc, as interfaces: records of operations with the documented
-- behaviour that the program relies on.
pub mod Rb
pub mod Query
pub mod Nvl
pub mod Alist
pub mod Samples
pub mod Sorted
