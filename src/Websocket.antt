-- ===== src/Websocket.antt =====
-- Live updates to the connected clients: app/websocket/events.py and app/websocket/manager.py.
pub mod Events
pub mod Manager
pub mod Broadcast
pub mod Delivery
pub mod Dedupe
pub mod Limits
pub mod Latest
pub mod Reaper
pub mod Coalesce
pub mod Relay
pub mod RelayLoop
mod Tests
