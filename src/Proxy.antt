-- ===== src/Proxy.antt =====
-- Proxying one request to one upstream (`ClientConnectionHandler` of proxy/client_handler.py, from
-- `proxy_to_upstream` on).
pub mod Connect
pub mod Relay
pub mod Exchange
pub mod Slots
pub mod Response
pub mod Whole
pub mod Success
pub mod Endings
pub mod Closing
pub mod Giving
pub mod Counting
pub mod Untouched
pub mod Deadlines
pub mod InTime
pub mod Prompt
pub mod Unconnected
pub mod Aloof
mod Tests
