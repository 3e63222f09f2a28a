-- ===== src/Vm.antt =====
-- vm/: virtual memory.
pub mod SwapManager
