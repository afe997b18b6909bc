-- ===== src/Events/PollPipes/Examples.antt =====
-- Two pipes and three writes.
