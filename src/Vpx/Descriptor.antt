-- ===== src/Vpx/Descriptor.antt =====
-- src/rtp_packetizer/vpx_descriptor.cpp: the parser of the descriptor. A parser that meets the end
-- of the data early returns what it has read so far, with nothing consumed.
pub mod Fields
pub mod RoundTrip
use asio_rtc.Common.{
  ℕ, zero, suc, ◌+◌, bit_and, bit_or, ◌<<<◌, ◌>>>◌, Bool, false, not, ◌==◌, if◌then◌else◌, Option,
  none, some, List, [], ◌∷◌,
}
use asio_rtc.Vpx.{VpxPayloadDescriptor}

-- The descriptor so far; behind `some` the position and the data from it on.
abbrev pub Reading : Type 0
Reading = VpxPayloadDescriptor × Option (ℕ × List ℕ)

-- `if (len < pos + 1) return d;` ends the reading.
abbrev pub and_then : Reading → (VpxPayloadDescriptor → ℕ → List ℕ → Reading) → Reading
and_then (d, none) next = (d, none)
and_then (d, some (pos, rest)) next = next d pos rest

unfoldable pub read_long_id : VpxPayloadDescriptor → ℕ → ℕ → List ℕ → Reading
read_long_id d pos high [] = (d, none)
read_long_id d pos high (low ∷ rest) =
    (record d { picture_id = some (bit_or (bit_and high 0x7f <<< 8) low) }, some (pos + 2, rest))

unfoldable pub read_id : VpxPayloadDescriptor → ℕ → List ℕ → Reading
read_id d pos [] = (d, none)
read_id d pos (b ∷ rest) =
    if not (bit_and b 0x80 == 0)
    then read_long_id d pos b rest
    else (record d { picture_id = some b }, some (pos + 1, rest))

unfoldable pub read_picture_id : ℕ → VpxPayloadDescriptor → ℕ → List ℕ → Reading
read_picture_id ext d pos rest =
    if not (bit_and ext 0x80 == 0) then read_id d pos rest else (d, some (pos, rest))

unfoldable pub read_idx : VpxPayloadDescriptor → ℕ → List ℕ → Reading
read_idx d pos [] = (d, none)
read_idx d pos (b ∷ rest) = (record d { tl0picidx = some b }, some (pos + 1, rest))

unfoldable pub read_tl0picidx : ℕ → VpxPayloadDescriptor → ℕ → List ℕ → Reading
read_tl0picidx ext d pos rest =
    if not (bit_and ext 0x40 == 0) then read_idx d pos rest else (d, some (pos, rest))

unfoldable pub read_tid_keyidx : ℕ → VpxPayloadDescriptor → ℕ → List ℕ → Reading
read_tid_keyidx ext d pos [] = (d, none)
read_tid_keyidx ext d pos (tk ∷ rest) = (
  record d {
    tid =
        if not (bit_and ext 0x20 == 0)
        then some (bit_and (tk >>> 6) 3, bit_and (tk >>> 5) 1)
        else d.tid;
    keyidx = if not (bit_and ext 0x10 == 0) then some (bit_and tk 0x1f) else d.keyidx;
  },
  some (pos + 1, rest),
)

unfoldable pub read_tk : ℕ → VpxPayloadDescriptor → ℕ → List ℕ → Reading
read_tk ext d pos rest =
    if not (bit_and ext 0x30 == 0) then read_tid_keyidx ext d pos rest else (d, some (pos, rest))

-- The part behind `if (extended)`.
unfoldable pub read_extension : VpxPayloadDescriptor → ℕ → List ℕ → Reading
read_extension d pos [] = (d, none)
read_extension d pos (ext ∷ rest) =
    and_then (and_then (read_picture_id ext d (pos + 1) rest) (read_tl0picidx ext)) (read_tk ext)

abbrev pub consumed : Reading → VpxPayloadDescriptor × ℕ
consumed (d, none) = (d, 0)
consumed (d, some (pos, rest)) = (d, pos)

-- `vpx_payload_descriptor::parse`: the descriptor and `consumed`.
unfoldable pub parse : List ℕ → VpxPayloadDescriptor × ℕ
parse [] = (
  record {
    partition_start = false;
    partition_id = 0;
    picture_id = none;
    tl0picidx = none;
    tid = none;
    keyidx = none;
  },
  0,
)
parse (b0 ∷ rest) =
    let d : VpxPayloadDescriptor = record {
      partition_start = not (bit_and (b0 >>> 4) 1 == 0);
      partition_id = bit_and b0 0xf;
      picture_id = none;
      tl0picidx = none;
      tid = none;
      keyidx = none;
    } in
    if not (bit_and (b0 >>> 7) 1 == 0) then consumed (read_extension d 1 rest) else (d, 1)
