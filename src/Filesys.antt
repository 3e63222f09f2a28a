-- ===== src/Filesys.antt =====
-- filesys/: the file system on the simulated disk.
pub mod FileHeader
pub mod Directory
pub mod OpenFile
pub mod MapFile
pub mod SysOpenFile
pub mod StubFile
