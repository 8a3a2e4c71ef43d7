-- ===== src/Vpx.antt =====
-- src/rtp_packetizer/vpx_descriptor.cpp, vpx_packetizer.cpp and opus_packetizer.cpp: the VP8 payload
-- descriptor, and the packetizers that cut a frame behind it. The VP8 and the VP9 packetizer have
-- the same text; their random first number is an argument.
pub mod Descriptor
pub mod Chunks
use asio_rtc.Common.{
  ℕ, zero, suc, ◌+◌, ◌-◌, bit_and, bit_or, u8, u16, ◌<<<◌, ◌>>>◌, min, Bool, true, false, not, ◌||◌,
  ltb, ◌==◌, if◌then◌else◌, Option, none, some, List, [], ◌∷◌, ◌++◌, length, take, drop, byte_at,
}

pub record VpxPayloadDescriptor : Type 0 where
  pub partition_start : Bool
  pub partition_id : ℕ
  pub picture_id : Option ℕ
  pub tl0picidx : Option ℕ
  pub tid : Option (ℕ × ℕ)
  pub keyidx : Option ℕ

-- `has_value` of an optional field
abbrev pub is_some {ℓ} : {A : Type ℓ} → Option A → Bool
is_some none = false
is_some (some a) = true

-- A flag of the extension byte.
abbrev pub flag : Bool → ℕ → ℕ
flag present weight = if present then weight else 0

unfoldable pub picture_id_bytes : Option ℕ → List ℕ
picture_id_bytes none = []
picture_id_bytes (some id) =
    if ltb id 128
    then u8 id ∷ []
    else u8 (u16 (bit_or 0x8000 id) >>> 8) ∷ u8 (bit_and (u16 (bit_or 0x8000 id)) 0xff) ∷ []

unfoldable pub tl0picidx_bytes : Option ℕ → List ℕ
tl0picidx_bytes none = []
tl0picidx_bytes (some idx) = idx ∷ []

-- `tk |= (tid->first << 6) | (tid->second << 5)`
unfoldable pub tid_bits : Option (ℕ × ℕ) → ℕ
tid_bits none = 0
tid_bits (some (tid, y)) = u8 (bit_or (tid <<< 6) (y <<< 5))

unfoldable pub keyidx_bits : Option ℕ → ℕ
keyidx_bits none = 0
keyidx_bits (some k) = bit_and k 0x1f

unfoldable pub tk_bytes : Option (ℕ × ℕ) → Option ℕ → List ℕ
tk_bytes tid keyidx =
    if is_some tid || is_some keyidx then bit_or (tid_bits tid) (keyidx_bits keyidx) ∷ [] else []

unfoldable pub first_octet : VpxPayloadDescriptor → ℕ
first_octet d =
    u8 (bit_or ((if d.partition_start then 1 else 0) <<< 4) (bit_and d.partition_id 0xf))

unfoldable pub extension_octet : VpxPayloadDescriptor → ℕ
extension_octet d =
    bit_or
      (bit_or (bit_or (flag (is_some d.picture_id) 0x80) (flag (is_some d.tl0picidx) 0x40))
        (flag (is_some d.tid) 0x20))
      (flag (is_some d.keyidx) 0x10)

-- `vpx_payload_descriptor::bytes`
unfoldable pub bytes : VpxPayloadDescriptor → List ℕ
bytes d =
    if is_some d.picture_id || (is_some d.tl0picidx || (is_some d.tid || is_some d.keyidx))
    then bit_or 0x80 (first_octet d) ∷ extension_octet d ∷ picture_id_bytes d.picture_id
      ++ (tl0picidx_bytes d.tl0picidx ++ tk_bytes d.tid d.keyidx)
    else first_octet d ∷ []

-- The loop of `pack` over the data from `off` on.
unfoldable pub chunks : ℕ → VpxPayloadDescriptor → List ℕ → List (List ℕ)
chunks zero desc rest = []
chunks (suc fuel) desc rest =
    let dbytes = bytes desc in
    let chunk = min (length rest) (1200 - length dbytes) in
    let later = chunks fuel (record desc { partition_start = false }) (drop chunk rest) in
    if length rest == 0 then [] else (dbytes ++ take chunk rest) ∷ later

-- `Vp8Packetizer::pack` and `Vp9Packetizer::pack`: the payloads with the timestamp, and the next
-- picture number.
unfoldable pub vpx_pack : ℕ → List ℕ → ℕ → (List (List ℕ) × ℕ) × ℕ
vpx_pack picture_id frame timestamp =
    let desc : VpxPayloadDescriptor = record {
      partition_start = true;
      partition_id = 0;
      picture_id = some picture_id;
      tl0picidx = none;
      tid = none;
      keyidx = none;
    } in
    ((chunks (length frame) desc frame, timestamp), bit_and (picture_id + 1) 0x7fff)

-- `OpusPacketizer::pack`
unfoldable pub opus_pack : List ℕ → ℕ → List (List ℕ) × ℕ
opus_pack encoded_data timestamp = (encoded_data ∷ [], timestamp)
