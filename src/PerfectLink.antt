-- ===== src/PerfectLink.antt =====
-- src/src/src/perfect_link.cpp and src/src/include/perfect_link.hpp: one end of a link to one other process.
pub mod Codec
pub mod Link
pub mod Channel
pub mod Packets
pub mod Sender
mod Receiver
pub mod Linked
pub mod Delivery
pub mod Life
pub mod Forgetting
