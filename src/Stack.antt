-- ===== src/Stack.antt =====
-- cds/stack: stacks.
pub mod Treiber
