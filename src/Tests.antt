-- ===== src/Tests.antt =====
-- Runs on small inputs, and the theorems at concrete inputs.
mod Log
mod Sample
mod Written
mod Runs
mod Backends
mod Connections
mod Codec
mod Group
mod Chats
mod Durable
mod Configurations
mod Refusals
mod Trees
mod Stores
mod Witnesses
