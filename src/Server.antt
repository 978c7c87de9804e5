-- ===== src/Server.antt =====
-- server/src/Server.cpp and server/src/main.cpp. State: the members of the server. Sessions: session
-- objects behind their pointers. Messages: sendToClient, onClientMessage and the login handler. Tick:
-- the resource timer. Events: accepting, the handlers of a session's reads and writes, and run. The
-- other modules hold proofs: Invariant, Running, Ticking, Handling, Stepping, Saving, Listening and
-- Service on what all events keep, Returning, Hearing, Steady and Unfailing on what returns,
-- Delivering on what is sent, LoggedIn, Ticks and Clock on the tick, Login and Registering on the login handler, Ids and
-- Wrapping on client ids.
pub mod State
pub mod Sessions
pub mod Messages
pub mod Tick
pub mod Events
pub mod Invariant
pub mod Running
pub mod Ticking
pub mod Handling
pub mod Stepping
pub mod LoggedIn
pub mod Ticks
pub mod Saving
pub mod Returning
pub mod Clock
pub mod Listening
pub mod Service
pub mod Hearing
pub mod Steady
pub mod Unfailing
pub mod Delivering
pub mod Wrapping
pub mod Registering
pub mod Login
pub mod Ids
pub mod Interface
