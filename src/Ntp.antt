-- ===== src/Ntp.antt =====
-- ntp-server: the key establishment, the cookies and the authenticated time queries.
pub mod Bytes
pub mod Records
pub mod Cookies
pub mod Packets
pub mod Auth
pub mod KeyExchange
pub mod Udp
mod Samples
mod Tests
