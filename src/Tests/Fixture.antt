-- ===== src/Tests/Fixture.antt =====
-- The byte order as a concrete function.
use asio_rtc.Common.{◌+◌, ◌*◌, ◌%◌, ◌>>>◌, refl, [], ◌∷◌}
use asio_rtc.Binary.{Binary, IsBigEndian}

abbrev pub network : Binary
network = record {
  read16 = λ a b. a * 256 + b;
  read32 = λ a b c d. ((a * 256 + b) * 256 + c) * 256 + d;
  write16 = λ v. (v >>> 8) % 256 ∷ v % 256 ∷ [];
  write32 = λ v. (v >>> 24) % 256 ∷ (v >>> 16) % 256 ∷ (v >>> 8) % 256 ∷ v % 256 ∷ [];
}

pub network-IsBigEndian : IsBigEndian network
network-IsBigEndian = record {
  read16_lem = λ a b. refl;
  read32_lem = λ a b c d. refl;
  write16_lem = λ v. refl;
  write32_lem = λ v. refl;
}
