-- ===== src/Task/Completion.antt =====
-- A workload's task comes to its end with its run completed.
