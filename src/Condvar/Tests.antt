-- ===== src/Condvar/Tests.antt =====
-- The theorems on condition variables at inputs that meet their hypotheses.
