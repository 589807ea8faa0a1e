-- ===== src/Queue/Mpmc/Limits.antt =====
-- When the bounded queue of Vyukov reports that it is full or empty.
