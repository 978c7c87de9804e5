-- ===== src/Tests.antt =====
-- The development on concrete data: the witnesses of its theorems, by part.
mod Data
mod Store
mod Files
mod Wire
mod Running
mod Serving
mod Screens
mod Playing
