-- ===== src/Net.antt =====
-- kernel/net: Ethernet, ARP, IPv4, ICMP and UDP. Each layer keeps its own state and changes that of
-- the layer below by its operations. A payload is the list of its bytes; `none` is a null pointer.
pub mod Eth
pub mod Arp
pub mod Ipv4
pub mod Icmp
pub mod Udp
mod Tests
