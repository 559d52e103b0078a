-- ===== src/Replication.antt =====
-- The replication package: what a peer tells another of its sessions (maps.go), what it knows of its
-- own and the others' latest serials (self.go, client.go), the stream of sessions between two peers
-- (connection.go, server.go), and the table of connections (peers.go, lookup.go).
pub mod Maps
pub mod Latest
pub mod Stream
pub mod CatchUp
pub mod Exchange
pub mod Lookup
pub mod Peers
mod Refreshing
mod Handshaking
pub mod Connecting
pub mod Retrying
pub mod Arriving
mod Examples
