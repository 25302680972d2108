-- ===== src/Examples.antt =====
-- Runs of the theorems at concrete inputs: lists, tasks, pages, characters, keys, files and volumes.
pub mod Lists
pub mod Tasks
pub mod Locks
pub mod Pages
pub mod Screen
pub mod Terminal
pub mod Open
pub mod Volumes
pub mod Paging
pub mod Devices
pub mod Mounts
pub mod Strings
pub mod Family
