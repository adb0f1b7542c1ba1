-- ===== src/Handler.antt =====
-- A client's connection (proxy/client_handler.py).
pub mod Lines
pub mod Parse
pub mod Segments
pub mod Requests
pub mod Results
pub mod Scanning
pub mod Messages
pub mod Aloof
pub mod Prompt
mod Tests
