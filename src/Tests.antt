-- ===== src/Tests.antt =====
-- Runs of the model at concrete inputs, and each property that has hypotheses at an input that
-- meets them.
mod Fixtures
mod Books
mod Texts
mod Servers
mod Sessions
mod SetUp
mod Clients
mod Generator
mod Programs
mod Runs
mod Mains
mod Scratch
