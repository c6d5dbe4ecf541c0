-- ===== src/Peers.antt =====
-- controller/materialiser.py, the wiring of the iperf3 traffic: which services a role sends to
-- (`compute_peers`), how many pods send to a role (`_compute_fanin`), which pods back a service,
-- and the port offsets that keep two senders off one server port (`_resolve_peer_ips`).
pub mod Endpoints
pub mod Services
pub mod Offsets
pub mod Distinct
pub mod Smallest
pub mod Coloured
pub mod Resolve
pub mod Links
pub mod Wired
mod Tests
