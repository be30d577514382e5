-- ===== src/Allocator.antt =====
-- internal/allocator: address ranges, pools and the allocator.
pub mod Ip
pub mod Range
pub mod Pool
pub mod Allocations
