-- ===== src/Binary.antt =====
-- `asioice/detail/binary.hpp`, which stands in a submodule of the repository: what rtp.cpp and
-- rtcp.cpp call of it. A reader is given the bytes in memory order, a writer gives the bytes that
-- it stores. `ntoh` of a field of a packed struct and `read_big` at its address are one reader,
-- and so with `hton` and `write_big`.
pub mod Laws
use asio_rtc.Common.{ℕ, ◌+◌, ◌*◌, ◌%◌, ◌>>>◌, ◌≡◌, List, [], ◌∷◌, byte_at}

pub record Binary : Type 0 where
  pub read16 : ℕ → ℕ → ℕ
  pub read32 : ℕ → ℕ → ℕ → ℕ → ℕ
  pub write16 : ℕ → List ℕ
  pub write32 : ℕ → List ℕ

-- Network order: the most significant byte first.
pub record IsBigEndian (bin : Binary) : Type 0 where
  pub read16_lem : (a b : ℕ) → bin.read16 a b ≡ a * 256 + b
  pub read32_lem : (a b c d : ℕ) → bin.read32 a b c d ≡ ((a * 256 + b) * 256 + c) * 256 + d
  pub write16_lem : (v : ℕ) → bin.write16 v ≡ (v >>> 8) % 256 ∷ v % 256 ∷ []
  pub write32_lem :
      (v : ℕ) → bin.write32 v ≡ (v >>> 24) % 256 ∷ (v >>> 16) % 256 ∷ (v >>> 8) % 256 ∷ v % 256 ∷ []

-- The readers at the start of a buffer.
abbrev pub peek16 : Binary → List ℕ → ℕ
peek16 bin buf = bin.read16 (byte_at buf 0) (byte_at buf 1)

abbrev pub peek32 : Binary → List ℕ → ℕ
peek32 bin buf = bin.read32 (byte_at buf 0) (byte_at buf 1) (byte_at buf 2) (byte_at buf 3)
