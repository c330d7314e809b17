-- ===== src/Dht.antt =====
-- frontend/src/lib/dht: the routing table and the lookup of the Kademlia node.
pub mod NodeId
pub mod Table
pub mod Lookup
pub mod Node
mod Tests
