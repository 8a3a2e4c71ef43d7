-- ===== src/Jitter/Seq.antt =====
-- `_extend_seq`: 16-bit sequence numbers as 32-bit ones.
use asio_rtc.Common.{ℕ, ◌+◌, ◌-◌, ◌*◌, ◌/◌, ◌%◌, ◌^◌, ◌≤◌, ◌<◌, bit_or, ◌<<<◌, ◌>>>◌, ◌≡◌, arith}
use asio_rtc.Common.Bits.{bit_or-eq-add}
use asio_rtc.Jitter.{extend_seq}

pub joined :
    (last seq : ℕ) → seq < 2 ^ 16 → bit_or (last >>> 16 <<< 16) seq ≡ last / 2 ^ 16 * 2 ^ 16 + seq
joined last seq h = bit_or-eq-add 16 (last / 2 ^ 16) seq h

-- Below the last cycle of the 32 bits, a packet less than 2 ^ 15 ahead gets its full number, across
-- a wrap of the 16 bits too.
pub extend_seq_ahead :
    (last k : ℕ)
    → last + 2 ^ 16 < 2 ^ 32
    → k < 2 ^ 15
    → extend_seq ((last + k) % 2 ^ 16) last ≡ last + k
unfolding extend_seq
extend_seq_ahead last k h near = rw (joined last ((last + k) % 2 ^ 16) (omega arith)) (ground arith)

-- Below the last cycle of the 32 bits, a packet at most 2 ^ 15 behind gets its full number, if no
-- wrap of the 16 bits lies between.
pub extend_seq_behind :
    (last k : ℕ)
    → last + 2 ^ 16 < 2 ^ 32
    → k ≤ 2 ^ 15
    → k ≤ last % 2 ^ 16
    → extend_seq ((last - k) % 2 ^ 16) last ≡ last - k
unfolding extend_seq
extend_seq_behind last k h near same =
    rw (joined last ((last - k) % 2 ^ 16) (omega arith)) (ground arith)

-- Below the last cycle, a packet at most 2 ^ 15 behind and across a wrap is taken for one of the next cycle: its number
-- is 2 ^ 16 too high, and so ahead of `last`.
pub extend_seq_late :
    (last k : ℕ)
    → last + 2 ^ 16 < 2 ^ 32
    → k ≤ 2 ^ 15
    → k ≤ last
    → last % 2 ^ 16 < k
    → extend_seq ((last - k) % 2 ^ 16) last ≡ last - k + 2 ^ 16
unfolding extend_seq
extend_seq_late last k h near enough wrapped =
    rw (joined last ((last - k) % 2 ^ 16) (omega arith)) (ground arith)
