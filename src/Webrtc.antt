-- ===== src/Webrtc.antt =====
-- The signalling gateway of src/gateways/webrtc.gateway.ts (`WebrtcGateway`), in memory:
-- `State` has its two maps and what it sends, the other definitions are one to a handler.
pub mod State
pub mod Calls
pub mod Presence
pub mod Relay
pub mod Actions
mod Participants
pub mod Invariant
mod Sent
pub mod Ending
pub mod Leaving
pub mod Lifecycle
pub mod Ringing
pub mod Routing
mod Tests
