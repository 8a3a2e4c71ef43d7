-- ===== src/H264.antt =====
-- src/rtp_packetizer/h264_packetizer.cpp: an Annex-B access unit cut into RTP payloads. The data
-- from an offset on is a list of its own, and a position is counted from its start.
pub mod StartCode
pub mod Fragments
pub mod Bounds
use asio_rtc.Common.{
  ℕ, zero, suc, ◌+◌, ◌-◌, bit_and, bit_or, min, Bool, true, false, ◌&&◌, leb, ◌==◌, if◌then◌else◌,
  Option, none, some, List, [], ◌∷◌, ◌++◌, length, take, drop, byte_at,
}

-- `kPacketMax`
abbrev pub packet_max : ℕ
packet_max = 1200

-- The length of the start code that the data begins with, or 0.
unfoldable pub start_code : List ℕ → ℕ
start_code [] = 0
start_code (a ∷ []) = 0
start_code (a ∷ b ∷ []) = 0
start_code (a ∷ b ∷ c ∷ rest) =
    if a == 0 && b == 0
    then if c == 1 then 3 else if c == 0 && byte_at rest 0 == 1 then 4 else 0
    else 0

abbrev pub behind : Option (ℕ × ℕ) → Option (ℕ × ℕ)
behind none = none
behind (some (i, code_len)) = some (suc i, code_len)

-- The position and the length of the first start code.
unfoldable pub find_start_code : List ℕ → Option (ℕ × ℕ)
find_start_code [] = none
find_start_code (a ∷ rest) =
    let code_len = start_code (a ∷ rest) in
    if code_len == 0 then behind (find_start_code rest) else some (0, code_len)

-- `fu_header` with its start and end bits.
unfoldable pub fu_header : Bool → Bool → ℕ → ℕ
fu_header first last nal_type =
    let started = if first then bit_or nal_type 0x80 else nal_type in
    if last then bit_or started 0x40 else started

-- The loop over the fragments of the bytes from `frag_off` on.
unfoldable pub fragments : ℕ → Bool → ℕ → ℕ → List ℕ → List (List ℕ)
fragments zero first fu_indicator nal_type rest = []
fragments (suc fuel) first fu_indicator nal_type rest =
    let frag_size = min (length rest) (packet_max - 2) in
    let last = leb (length rest) frag_size in
    let later = fragments fuel false fu_indicator nal_type (drop frag_size rest) in
    if length rest == 0
    then []
    else (fu_indicator ∷ fu_header first last nal_type ∷ take frag_size rest) ∷ later

-- The payloads of a NAL unit that is not empty.
unfoldable pub pack_unit : ℕ → List ℕ → List (List ℕ)
pack_unit nal_hdr rest =
    if leb (suc (length rest)) packet_max
    then (nal_hdr ∷ rest) ∷ []
    else fragments (length rest) true (bit_or (bit_and nal_hdr 0x60) 28) (bit_and nal_hdr 0x1f) rest

unfoldable pub pack_nal : List ℕ → List (List ℕ)
pack_nal [] = []
pack_nal (nal_hdr ∷ rest) = pack_unit nal_hdr rest

-- The loop of `pack` over the data from `off` on.
unfoldable pub pack_loop : ℕ → List ℕ → List (List ℕ)
pack_loop zero data_off = []
pack_loop (suc fuel) data_off = elim (find_start_code data_off) [
  | none ↦ []
  | some (i, code_len) ↦
      let body = drop (i + code_len) data_off in
      elim (find_start_code body) [
        | none ↦ pack_nal body
        | some (j, next_len) ↦ pack_nal (take j body) ++ pack_loop fuel (drop j body)
      ]
]

-- `H264Packetizer::pack`: a round takes a start code off, so the length is enough fuel.
unfoldable pub pack : List ℕ → ℕ → List (List ℕ) × ℕ
pack bytes timestamp = (pack_loop (length bytes) bytes, timestamp)
