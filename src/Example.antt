-- ===== src/Example.antt =====
-- The example programs under example, over the models of the library they call.
pub mod Reply
pub mod Gather
