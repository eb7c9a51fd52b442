-- ===== src/Connection.antt =====
-- frontend/src/stores/wsConnection.svelte.ts: the WebSocket stream, its outbound queue, request
-- correlation, acknowledgements, reconnection and the long-poll fallback.
pub mod State
pub mod Send
pub mod Requests
pub mod Stream
pub mod Machine
pub mod Settled
pub mod Bounds
pub mod Offline
pub mod Order
pub mod Lifecycle
mod Tests
