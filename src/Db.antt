-- ===== src/Db.antt =====
-- server/inc/JsonDB.hpp: the account store. The mutex is held for the whole of every method, so a
-- method is one step. Uuid: generateUuid. Types: the members. Queries: the const methods. File: save
-- and load. Updates: addUser, updateResources and setCampLevel. The other modules hold
-- proofs.
pub mod Uuid
pub mod Types
pub mod Queries
pub mod File
pub mod Updates
pub mod Lookup
pub mod Accounts
pub mod Known
pub mod Saving
pub mod Encodable
pub mod Totality
pub mod Loaded
pub mod Collect
pub mod Loading
pub mod Restart
pub mod Refinement
pub mod Replay
