-- ===== src/Nfcp.antt =====
-- src/module/nfcp/nfcp.c, nfcp.h and nfcp_cls_mgmt.c: the control port.
pub mod State
pub mod Packet
pub mod Sealed
pub mod Mgmt
pub mod Task
pub mod Link
pub mod Transmit
pub mod Exchange
pub mod Safe
pub mod Chunks
pub mod Stored
pub mod Session
pub mod Put
pub mod Cap
pub mod Good
pub mod Turn
pub mod Run
pub mod Log
pub mod Calls
mod Tests
