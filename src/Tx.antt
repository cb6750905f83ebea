-- ===== src/Tx.antt =====
-- The transmission of src/utils.c and src/tc.c: how a frame is prepared, what one cycle of a Tx
-- thread sends, and how the threads of a class hand frames over.
pub mod Prepare
pub mod Meta
pub mod Prepared
pub mod Facts
pub mod Received
pub mod Initialized
