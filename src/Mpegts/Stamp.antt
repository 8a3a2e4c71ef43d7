-- ===== src/Mpegts/Stamp.antt =====
-- src/mpegts_demuxer.hpp: the five bytes of a time stamp in `parse_pes`.
use asio_rtc.Common.{ℕ, ◌+◌, ◌*◌, ◌/◌, ◌%◌, ◌^◌, ◌<◌, ◌≡◌, bit_and, bit_or, ◌<<<◌, ◌>>>◌, arith}
use asio_rtc.Common.Bits.{bit_and-mask, bit_and-shift, bit_or-eq-add}

-- The fields of a header's bytes.
pub first_bits : (t : ℕ) → t < 8 → bit_and (0x21 + t * 2) 0x0e ≡ t * 2
first_bits t h =
    omega (arith, bit_and-shift 1 (0x21 + t * 2) 7, bit_and-mask 3 ((0x21 + t * 2) / 2))

pub first_mark : (t : ℕ) → t < 8 → bit_and (0x21 + t * 2) 0xf0 ≡ 0x20
first_mark t h =
    omega (arith, bit_and-shift 4 (0x21 + t * 2) 15, bit_and-mask 4 ((0x21 + t * 2) / 16))

pub marked_bits : (s : ℕ) → s < 128 → bit_and (s * 2 + 1) 0xfe ≡ s * 2
marked_bits s h = omega (arith, bit_and-shift 1 (s * 2 + 1) 127, bit_and-mask 7 ((s * 2 + 1) / 2))

pub mark : (s : ℕ) → bit_and (s * 2 + 1) 0x01 ≡ 0x01
mark s = omega (arith, bit_and-mask 1 (s * 2 + 1))

pub joined_pts :
    (t y s z w : ℕ)
    → y < 256
    → s < 128
    → z < 256
    → w < 128
    → bit_or
        ((t * 2) <<< 29)
        (bit_or (y <<< 22) (bit_or ((s * 2) <<< 14) (bit_or (z <<< 7) ((w * 2) >>> 1))))
      ≡ t * 2 ^ 30 + (y * 2 ^ 22 + (s * 2 ^ 15 + (z * 2 ^ 7 + w)))
joined_pts t y s z w hy hs hz hw = top
  where
    half : (w * 2) >>> 1 ≡ w
    half = omega arith

    low : bit_or (z <<< 7) ((w * 2) >>> 1) ≡ z * 2 ^ 7 + w
    low = rw half (bit_or-eq-add 7 z w hw)

    mid : bit_or ((s * 2) <<< 14) (bit_or (z <<< 7) ((w * 2) >>> 1)) ≡ s * 2 ^ 15 + (z * 2 ^ 7 + w)
    mid =
        let e : (s * 2) <<< 14 ≡ s * 2 ^ 15 = omega arith in
        rw (low, e) (bit_or-eq-add 15 s (z * 2 ^ 7 + w) (omega arith))

    high :
        bit_or (y <<< 22) (bit_or ((s * 2) <<< 14) (bit_or (z <<< 7) ((w * 2) >>> 1)))
        ≡ y * 2 ^ 22 + (s * 2 ^ 15 + (z * 2 ^ 7 + w))
    high = rw mid (bit_or-eq-add 22 y (s * 2 ^ 15 + (z * 2 ^ 7 + w)) (omega arith))

    top :
        bit_or
          ((t * 2) <<< 29)
          (bit_or (y <<< 22) (bit_or ((s * 2) <<< 14) (bit_or (z <<< 7) ((w * 2) >>> 1))))
        ≡ t * 2 ^ 30 + (y * 2 ^ 22 + (s * 2 ^ 15 + (z * 2 ^ 7 + w)))
    top =
        let e : (t * 2) <<< 29 ≡ t * 2 ^ 30 = omega arith in
        rw (high, e)
          (bit_or-eq-add 30 t (y * 2 ^ 22 + (s * 2 ^ 15 + (z * 2 ^ 7 + w))) (omega arith))

pub digits_of :
    (pts : ℕ)
    → pts < 2 ^ 33
    → pts / 2 ^ 30 % 8 * 2 ^ 30
        + (pts / 2 ^ 22 % 256 * 2 ^ 22
            + (pts / 2 ^ 15 % 128 * 2 ^ 15 + (pts / 2 ^ 7 % 256 * 2 ^ 7 + pts % 128)))
      ≡ pts
digits_of pts h = omega arith
