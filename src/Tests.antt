-- ===== src/Tests.antt =====
-- Small programs that run the development, and examples of its theorems.
pub mod Data
pub mod Sort
mod Update
mod Query
mod Replies
mod Search
mod Drivers
mod Databases
mod Composed
mod Walks
mod Clients
mod Texts
mod Goroutines
mod Versions
