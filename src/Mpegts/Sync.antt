-- ===== src/Mpegts/Sync.antt =====
-- src/mpegts_demuxer.hpp: `TSHeader` and `find_sync`. The buffer and the offset in it are the
-- arguments and the result.
use asio_rtc.Common.{
  ℕ, zero, suc, ◌+◌, ◌-◌, bit_and, bit_or, ◌<<<◌, ◌>>>◌, Bool, true, false, ltb, leb, not, ◌==◌,
  if◌then◌else◌, Option, none, some, ◌>>=◌, List, [], ◌∷◌, length, drop, byte_at,
}
use asio_rtc.Mpegts.{ts_packet_size}

unfoldable pub header_error : List ℕ → Bool
header_error packet = not (bit_and (byte_at packet 1) 0x80 == 0)

unfoldable pub unit_start : List ℕ → Bool
unit_start packet = not (bit_and (byte_at packet 1) 0x40 == 0)

unfoldable pub packet_pid : List ℕ → ℕ
packet_pid packet = bit_or (bit_and (byte_at packet 1) 0x1f <<< 8) (byte_at packet 2)

unfoldable pub adaptation_control : List ℕ → ℕ
adaptation_control packet = bit_and (byte_at packet 3 >>> 4) 0x03

unfoldable pub continuity : List ℕ → ℕ
continuity packet = bit_and (byte_at packet 3) 0x0f

abbrev pub sync_byte : ℕ
sync_byte = 0x47

-- `std::find` of the synchronisation byte: how far away it is.
unfoldable pub find_sync_byte : List ℕ → Option ℕ
find_sync_byte [] = none
find_sync_byte (b ∷ rest) =
    if b == sync_byte then some 0 else (do k ← find_sync_byte rest; some (suc k))

-- Whether a packet stands at the new offset, the buffer, and the offset. A round that goes on leaves
-- a whole packet and a byte behind, so the length of the buffer is fuel enough.
unfoldable pub find_sync : ℕ → List ℕ → ℕ → Bool × List ℕ × ℕ
find_sync zero buffer offset = (false, buffer, offset)
find_sync (suc fuel) buffer offset = elim (leb (offset + ts_packet_size) (length buffer)) [
  | false ↦ (false, drop offset buffer, 0)
  | true ↦ elim (find_sync_byte (drop offset buffer)) [
    | none ↦ (false, [], 0)
    | some k ↦ elim (ltb (length buffer - (offset + k)) ts_packet_size) [
      | true ↦ (false, drop (offset + k) buffer, 0)
      | false ↦ elim (ltb ts_packet_size (length buffer - (offset + k))) [
        | false ↦ (true, buffer, offset + k)
        | true ↦ elim (byte_at buffer (offset + k + ts_packet_size) == sync_byte) [
          | true ↦ (true, buffer, offset + k)
          | false ↦ find_sync fuel buffer (offset + k + ts_packet_size + 1)
        ]
      ]
    ]
  ]
]
