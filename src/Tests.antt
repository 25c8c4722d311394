-- ===== src/Tests.antt =====
-- Concrete inputs, and the theorems at them.
mod Base
mod Bcdb
mod TreeManager
mod Alerts
mod Config
mod Hosts
mod Gedis
mod Mnemonic
mod Logging
mod Store
mod Startup
mod Types
mod Schema
mod Syncer
mod Process
mod Git
mod Openresty
mod Nettools
mod Meta
