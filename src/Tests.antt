-- ===== src/Tests.antt =====
-- Tests of the model, and each theorem at a concrete input.
mod Fixtures
mod Database
mod Backend
mod Sqlite
mod Application
mod Transport
mod Requests
mod Client
mod Outside
