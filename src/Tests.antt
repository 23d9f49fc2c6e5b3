-- ===== src/Tests.antt =====
-- Runs of the model on concrete inputs, and the theorems at such inputs.
mod Setup
mod Blocks
mod Words
mod Allocations
mod Epochs
mod Threads
mod Baseline
mod Grading
mod Transactions
mod Banking
mod Pipes
mod Meetings
mod Counters
