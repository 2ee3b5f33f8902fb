-- ===== src/Mux.antt =====
-- mux/mux.go: requests and responses over one link, with the table of the requests in flight.
mod Steps
mod Invariant
mod Sound
mod Correlation
mod Stop
mod Leaving
mod Reuse
mod Keys
mod Runs
pub use Steps.*
