-- ===== src/Traffic.antt =====
-- Where requests are sent: ports/traffic.py and adapters/traffic/file.py.
pub mod Ports
pub mod File
pub mod Route
