-- ===== src/Examples.antt =====
-- Concrete inputs on which the properties of the library apply.
mod Stores
mod Meters
mod Codec
mod Machine
mod Numbers
mod Runs
mod Collector
mod Sessions
