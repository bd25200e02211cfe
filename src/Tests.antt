-- ===== src/Tests.antt =====
-- Runs of the theorems on a small concrete driver, and of the operations on small inputs.
mod Sim
mod Machine
mod Reopening
mod Scenes
mod Folders
mod Writing
mod Opening
mod Processes
mod Listing
mod Directories
mod Trees
mod Requests
mod Values
