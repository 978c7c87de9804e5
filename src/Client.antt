-- ===== src/Client.antt =====
-- The client (client/src, client/inc): Network is NetworkClient, Timer, Textbox and Button the
-- widgets, Context the player and the shared context, Scenes the scenes and their manager,
-- Application the frame. Graphics calls of raylib are not modelled; what the code asks of raylib in a
-- frame (mouse, keys, text widths, time) is an argument.
pub mod Raylib
pub mod Font
pub mod Network
pub mod Timer
pub mod Button
pub mod Textbox
pub mod Context
pub mod Scenes
pub mod Application
pub mod Interfaces
