-- ===== src/Ib.antt =====
-- What client/megaVM_client.c and server/megaVM_server.c share: the data they declare alike, the
-- kernel and verbs calls they make, and the machine that runs them. The children hold the parts.
pub mod Types
pub mod Calls
pub mod Machine
pub mod Events
pub mod Buffer
pub mod Tally
pub mod Posts
pub mod Steps
pub mod Ledger
pub mod Frame
pub mod Completions
pub mod Mild
pub mod Rules
pub mod Follow
pub mod Wake
pub mod Invariant
pub mod Guard
