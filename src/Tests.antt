-- ===== src/Tests.antt =====
-- Runs of the model on small inputs, and the theorems at inputs that meet their hypotheses.
mod Queues
mod Fair
mod Variants
mod Stages
mod Keys
mod Memory
mod Writes
mod Replies
mod Tokens
