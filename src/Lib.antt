-- ===== src/Lib.antt =====
-- net-pixeld: a game server with JSON accounts, and its client.
--
-- The server (server/) accepts connections, gives each a client id and a Session, handles logins
-- against the accounts of a JsonDB, and once a second gives every logged-in player resources. The
-- client (client/) connects, logs in from a login scene and shows the resources in a game scene.
-- Both sides exchange one JSON message per line (common/Protocol.hpp).
--
-- Which module is about which file:
-- - Protocol: common/Protocol.hpp (serialize, parse); Protocol/Framing: the reading of lines in
--   server/src/Session.cpp and client/src/network/NetworkClient.cpp.
-- - Logger, Resource: common/Logger.hpp, common/Resource.hpp.
-- - Db: server/inc/JsonDB.hpp. Types has the members, Queries the const methods, File with
--   File/Format `save` and `load`, Updates the methods that change accounts and the constructor,
--   Uuid `generateUuid`. Accounts, Known, Saving, Encodable, Totality, Loaded, Collect, Loading,
--   Lookup, Refinement, Replay and Restart hold proofs.
-- - Session: server/src/Session.cpp, one connection; Session/Writes holds proofs on its
--   queue, Session/Reading on its lines, Session/Delivery on its progress.
-- - Server: server/src/Server.cpp and server/src/main.cpp. State has the members, Sessions the
--   sessions map, Messages the login handler, Tick `onResourceTick`, Events the completion
--   handlers and the program's start. Invariant, Running, Ticking, Handling and Stepping hold the
--   proofs on what every event keeps, Saving, Listening and Service those on saving the accounts,
--   Returning, Hearing, Steady and Unfailing those on what returns, Delivering that on what is
--   sent; LoggedIn, Ticks, Clock, Login, Registering, Ids and Wrapping are about the tick, the
--   login handler and the client ids.
-- - Client: client/src. Raylib is what the client calls of raylib, Font is CFont, Network is
--   NetworkClient, Timer, Button and Textbox the widgets, whose children Look have their geometry and
--   drawing, Context the player and the shared context, Scenes the scenes and their manager,
--   Application the frame and the window loop. The children of Application are about the numbers of
--   messages, the queue and the messages that the game scene gets.
-- - System: a turn of the server's tick and the client's frame that gets its message.
-- - Server/Interface, Session/Interface, Client/Interfaces, Client/Scenes/Interface: the methods that
--   the headers declare, with the definitions that implement them.
-- - Tests: concrete data and the witnesses.
--
-- State and control. A method is a function from its object to a result and the object after it: the
-- result is a value, an exception or a crash, which is undefined behaviour (Prelude/Outcome,
-- Prelude/Exec). Session objects stand in a list, a shared_ptr is a position in it or null, and
-- handlers keep the position, so a session lives on when its id leads elsewhere. The handlers that
-- io_context::run calls are a list of events chosen by the environment (Server/Events): an event
-- whose handler cannot be ready does nothing. Texts are lists of bytes; unordered maps are
-- association lists, whose order is the order of iteration; machine integers wrap as written.
--
-- What is not under src/ is a parameter. The JSON library is the record Json of the calls that the
-- program makes, and IsLawful its documented behaviour; Json/Tree is an instance of both. The file
-- system is Disk, which may refuse to open or to rename and may be full. The random engine is
-- Generator, a sequence of draws. `float` arithmetic, text measurement and collision are the record
-- Raylib; the window, mouse, keys and time of a frame are an argument; drawing is the list of the calls
-- that are made. A CFont object that several boxes point to is passed through them and returned.
--
-- Fuel. The polling loop of a client's frame has as much as messages are queued when the frame
-- starts, which no poll adds to; the loop over the font size has 20, since it starts at 20, goes down
-- by one and stops at 8. All other loops are recursions on lists.
--
-- Not modelled: the places where the program logs, but for that of a failed accept, whose arguments
-- are undefined behaviour, a crash; the mutexes (each method of JsonDB and each
-- iteration of the receiving thread is one step), and the build files.
mod Prelude
pub mod Json
pub mod Protocol
pub mod Logger
pub mod Resource
pub mod Disk
pub mod Db
pub mod Session
pub mod Server
pub mod Client
pub mod System
mod Tests
