-- ===== src/Paxos.antt =====
-- The Paxos replica, src/paxos/paxos_server.cpp and src/include/paxos_server.h.
pub mod Slot
pub mod Messages
pub mod KeyValue
pub mod Address
pub mod Replica
pub mod Acceptor
pub mod Network
pub mod Heartbeat
pub mod Leader
pub mod Proposer
pub mod Cell
pub mod Interleaving
