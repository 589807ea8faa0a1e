-- ===== src/Bag.antt =====
-- cds/bag/sbag_hrc.h: the concurrent bag of Sundell et al. Every thread owns a list of blocks,
-- newest first; it adds to the newest block and removes from it, and takes from the blocks of
-- other threads when it has nothing left. The calls are modelled one at a time, so a compare and
-- swap succeeds exactly when the value that it expects is there.
pub mod State
pub mod Blocks
pub mod Remove
pub mod Calls
mod Tests
