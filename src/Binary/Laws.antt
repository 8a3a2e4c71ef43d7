-- ===== src/Binary/Laws.antt =====
-- A number that is written is read back, whatever stands behind it.
use asio_rtc.Common.{ℕ, ◌+◌, ◌^◌, ◌<◌, ◌≡◌, List, ◌++◌, length, drop, arith}
use asio_rtc.Binary.{Binary, IsBigEndian, peek16, peek32}

module _ {bin : Binary} (be : IsBigEndian bin) where
  pub peek16-write16 : (v : ℕ) (rest : List ℕ) → v < 2 ^ 16 → peek16 bin (bin.write16 v ++ rest) ≡ v
  peek16-write16 v rest h = rw (be.write16_lem, be.read16_lem) (omega arith)

  pub peek32-write32 : (v : ℕ) (rest : List ℕ) → v < 2 ^ 32 → peek32 bin (bin.write32 v ++ rest) ≡ v
  peek32-write32 v rest h = rw (be.write32_lem, be.read32_lem) (omega arith)

  pub drop-write16 : (v : ℕ) (rest : List ℕ) → drop 2 (bin.write16 v ++ rest) ≡ rest
  drop-write16 v rest = rw be.write16_lem

  pub drop-write32 : (v : ℕ) (rest : List ℕ) → drop 4 (bin.write32 v ++ rest) ≡ rest
  drop-write32 v rest = rw be.write32_lem

  pub length-write16 : (v : ℕ) → length (bin.write16 v) ≡ 2
  length-write16 v = rw be.write16_lem

  pub length-write32 : (v : ℕ) → length (bin.write32 v) ≡ 4
  length-write32 v = rw be.write32_lem

  pub length-write16-append :
      (v : ℕ) (rest : List ℕ) → length (bin.write16 v ++ rest) ≡ 2 + length rest
  length-write16-append v rest = rw be.write16_lem (omega arith)

  pub length-write32-append :
      (v : ℕ) (rest : List ℕ) → length (bin.write32 v ++ rest) ≡ 4 + length rest
  length-write32-append v rest = rw be.write32_lem (omega arith)
