-- ===== src/Store.antt =====
-- frontend/src/stores/ircStore.svelte.ts: the rows of one buffer, and what arrives for them.
pub mod Message
pub mod Stash
pub mod Overlay
pub mod Fold
pub mod Place
pub mod Append
pub mod Batch
pub mod Fail
pub mod Typing
pub mod Unread
pub mod Page
mod Tests
