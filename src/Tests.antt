-- ===== src/Tests.antt =====
-- Tests of the model on small discs, and the theorems applied to them.
mod Demo
mod Directories
mod Entries
mod Files
mod Handles
mod Inputs
mod Names
mod Paths
mod Programs
mod Sessions
mod Streams
mod Threads
mod Volumes
