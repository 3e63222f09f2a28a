-- ===== src/Filesys/StubFile.antt =====
-- filesys/openfile.h, as compiled with FILESYS_STUB: the open file that vm/Makefile uses is a file of
-- the host. The calls of the host behind Lseek, ReadPartial and WriteFile of machine/sysdep.cc are
-- parameters; where such a call fails the program aborts, which is not modelled. Each transfer sets the
-- position in the host's file anew, so no position is kept.
pub mod Bytes
use cs270hw.Base.{ℕ, ◌+◌, ◌<◌, ◌≤◌, ◌≡◌, ◌⊎◌, max, List, length, take}

-- `Lseek(file, position, 0); ReadPartial(file, into, n)`, `Lseek(file, position, 0); WriteFile(file,
-- from, n)` with the bytes from `from` on, and the size of the file
pub record Host (F : Type 0) : Type 0 where
  pub read : F → ℕ → ℕ → List ℕ
  pub write : F → List ℕ → ℕ → F
  pub size : F → ℕ

-- What POSIX says of these calls: a write puts its bytes into the file, which grows if it has to, and a
-- read of bytes that the file has gives these.
pub record IsPosix {F : Type 0} (host : Host F) : Type 0 where
  pub grown :
      (f : F) (from : List ℕ) (position : ℕ)
      → 0 < length from
      → host.size (host.write f from position) ≡ max (host.size f) (position + length from)
  pub written :
      (f : F) (from : List ℕ) (position : ℕ)
      → host.read (host.write f from position) (length from) position ≡ from
  pub unwritten :
      (f : F) (from : List ℕ) (position n start : ℕ)
      → start + n ≤ host.size f
      → (start + n ≤ position) ⊎ (position + length from ≤ start)
      → host.read (host.write f from position) n start ≡ host.read f n start

module _ {F : Type 0} (host : Host F) where
  -- `OpenFile::ReadAt`, the bytes that it reads
  abbrev pub read_at : F → ℕ → ℕ → List ℕ
  read_at f num_bytes position = host.read f num_bytes position

  -- `OpenFile::WriteAt`, with the number that it returns
  abbrev pub write_at : F → List ℕ → ℕ → ℕ → ℕ × F
  write_at f from num_bytes position = (num_bytes, host.write f (take num_bytes from) position)
