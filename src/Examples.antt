-- ===== src/Examples.antt =====
-- Runs of the model on concrete data, and the theorems at inputs that meet their hypotheses.
mod States
mod Runs
mod Attempts
mod Leases
mod Conversations
mod Answers
mod Graphs
mod Documents
