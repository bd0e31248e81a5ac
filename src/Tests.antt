-- ===== src/Tests.antt =====
-- Runs at fixed inputs, and each theorem at an input that meets its hypotheses.
mod Fixtures
mod Proxies
mod Servers
mod Lifecycles
mod Waits
mod Exports
mod Certificates
mod Commands
mod Issuing
mod Builds
