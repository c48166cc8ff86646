-- ===== src/Tests.antt =====
-- A kernel that keeps its promises, runs of the restaurant under it, and each theorem at one of them.
mod Kernel
mod Runs
mod Witnesses
mod Receiving
mod Waiting
mod Programs
mod Delivery
mod SystemV
mod Starting
mod Around
mod Progressing
mod Visiting
mod Files
mod Meeting
