-- ===== src/Examples.antt =====
-- Concrete inputs, and runs of the development's theorems on them.
mod Fixtures
mod Streams
mod Records
mod Registries
mod Tables
mod Previews
mod RunEvents
mod Requests
mod Workspaces
mod Messages
mod History
mod Chats
