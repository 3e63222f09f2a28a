-- ===== src/Userprog.antt =====
-- userprog/: what the kernel keeps for user programs.
pub mod MemoryManager
pub mod Pcb
