-- ===== src/Mpegts/Psi.antt =====
-- src/mpegts_demuxer.hpp: `calculate_crc32`, `parse_psi`, `process_psi_sections`,
-- `handle_psi_section`, `parse_pat` and `parse_pmt`. The descriptors of a stream are read as far as
-- their length says, and nothing compares it with the section: `none` is a read behind the buffer.
use asio_rtc.Common.{
  ℕ, zero, suc, ◌+◌, ◌-◌, ◌^◌, bit_and, bit_or, u32, ◌<<<◌, Bool, true, false, ltb, leb, not, ◌&&◌,
  ◌||◌, ◌==◌, if◌then◌else◌, Option, none, some, ◌>>=◌, List, [], ◌∷◌, ◌++◌, length, take, drop,
  byte_at,
}
use Prim.Native.Nat.{bit_xor}
use asio_rtc.Sdp.Codec.{MediaFormat, unknown, opus, vp8, h264, vp9}
use asio_rtc.Mpegts.{
  MediaKind, audio, video, StreamState, ProgramInfo, Demuxer, max_psi_section, max_programs,
  find_stream, update_stream, erase_stream,
}

-- `n` rounds of the inner loop
unfoldable pub crc_bits : ℕ → ℕ → ℕ
crc_bits zero crc = crc
crc_bits (suc n) crc =
    crc_bits n (if leb (2 ^ 31) crc then bit_xor (u32 (crc <<< 1)) 0x04C11DB7 else u32 (crc <<< 1))

unfoldable pub crc_loop : ℕ → List ℕ → ℕ
crc_loop crc [] = crc
crc_loop crc (b ∷ bytes) = crc_loop (crc_bits 8 (bit_xor crc (b <<< 24))) bytes

unfoldable pub calculate_crc32 : List ℕ → ℕ
calculate_crc32 bytes = crc_loop 0xFFFFFFFF bytes

-- `((hi & mask) << 8) | lo`
abbrev pub masked16 : ℕ → ℕ → ℕ → ℕ
masked16 mask hi lo = bit_or (bit_and hi mask <<< 8) lo

-- The loop of `parse_pat` over the entries of four bytes in front of the checksum.
unfoldable pub pat_loop : List ℕ → List ProgramInfo → List ProgramInfo
pat_loop (a ∷ b ∷ c ∷ d ∷ rest) programs = pat_loop rest (
    if not (bit_or (a <<< 8) b == 0) && ltb (length programs) max_programs
    then programs ++ record { number = bit_or (a <<< 8) b; pmt_pid = masked16 0x1f c d } ∷ []
    else programs)
pat_loop rest programs = programs

unfoldable pub parse_pat : List ℕ → List ProgramInfo
parse_pat section = pat_loop (drop 8 (take (length section - 4) section)) []

-- `switch (stream_type)`
unfoldable pub type_format : ℕ → MediaFormat
type_format t = if t == 0x1b || t == 0x24 then h264 else unknown

unfoldable pub type_kind : ℕ → MediaKind
type_kind t =
    if t == 0x03 || t == 0x04 || t == 0x0f || t == 0x1c || t == 0x81 || t == 0x87
    then audio
    else video

-- `std::memcmp` of the four bytes of a registration
unfoldable pub is_code : List ℕ → ℕ → ℕ → ℕ → ℕ → Bool
is_code bytes a b c d =
    byte_at bytes 0 == a && byte_at bytes 1 == b && byte_at bytes 2 == c && byte_at bytes 3 == d

unfoldable pub registration : List ℕ → MediaFormat × MediaKind → MediaFormat × MediaKind
registration fid known =
    if is_code fid b'O' b'p' b'u' b's'
    then (opus, audio)
    else if is_code fid b'V' b'P' b'8' b'0'
    then (vp8, video)
    else if is_code fid b'V' b'P' b'9' b'0'
    then (vp9, video)
    else if is_code fid b'A' b'V' b'C' b'1' || is_code fid b'H' b'2' b'6' b'4'
    then (h264, video)
    else known

-- `switch (tag)`; `fid` are the bytes behind the length `dlen`.
unfoldable pub describe : ℕ → ℕ → List ℕ → MediaFormat × MediaKind → MediaFormat × MediaKind
describe tag dlen fid (fmt, k) =
    if tag == 0x02
    then (fmt, video)
    else if tag == 0x03
    then (fmt, audio)
    else if tag == 0x05
    then (if leb 4 dlen then registration fid (fmt, k) else (fmt, k))
    else if tag == 0x28
    then (fmt, video)
    else if tag == 0x6a || tag == 0x7a
    then (fmt, audio)
    else (fmt, k)

-- The loop over the descriptors: `left` is `info_len - d`, `rest` the bytes of the buffer from there
-- on. A registration is read as far as its four bytes.
unfoldable pub descriptors :
    ℕ → ℕ → List ℕ → MediaFormat × MediaKind → Option (MediaFormat × MediaKind)
descriptors zero left rest known = some known
descriptors (suc fuel) left rest known = elim (leb 2 left) [
  | false ↦ some known
  | true ↦ elim (ltb (length rest) 2) [
    | true ↦ none
    | false ↦
        let dlen = byte_at rest 1 in
        elim (ltb left (2 + dlen)) [
          | true ↦ some known
          | false ↦ elim (byte_at rest 0 == 0x05 && leb 4 dlen && ltb (length rest) 6) [
            | true ↦ none
            | false ↦
                descriptors fuel (left - (2 + dlen)) (drop (2 + dlen) rest)
                  (describe (byte_at rest 0) dlen (drop 2 rest) known)
          ]
        ]
  ]
]

unfoldable pub set_format : MediaFormat × MediaKind → StreamState → StreamState
set_format (fmt, k) st = record st { format = fmt; kind = k }

-- The loop of `parse_pmt`: `left` is `loop_end - es_off`, `rest` the bytes of the buffer from there
-- on. Where the next stream would begin behind the end, the loop is over.
unfoldable pub pmt_loop : ℕ → ℕ → List ℕ → List (ℕ × StreamState) → Option (List (ℕ × StreamState))
pmt_loop zero left rest streams = some streams
pmt_loop (suc fuel) left rest streams = elim (leb 5 left) [
  | false ↦ some streams
  | true ↦
      let info_len = masked16 0x0f (byte_at rest 3) (byte_at rest 4) in
      do
        known ←
            descriptors info_len info_len (drop 5 rest)
              (type_format (byte_at rest 0), type_kind (byte_at rest 0))
        pmt_loop fuel (left - (5 + info_len)) (drop (5 + info_len) rest) (
            update_stream (set_format known) (masked16 0x1f (byte_at rest 1) (byte_at rest 2))
              streams)
]

-- `buf` is the buffer from the section on, and `len` the section's length.
unfoldable pub parse_pmt : List ℕ → ℕ → List (ℕ × StreamState) → Option (List (ℕ × StreamState))
parse_pmt buf len streams =
    if ltb len 12
    then some streams
    else if ltb (len - 4) (12 + masked16 0x0f (byte_at buf 10) (byte_at buf 11))
    then some streams
    else pmt_loop len (len - 4 - (12 + masked16 0x0f (byte_at buf 10) (byte_at buf 11)))
        (drop (12 + masked16 0x0f (byte_at buf 10) (byte_at buf 11)) buf) streams

-- The four bytes of the checksum, at the end of the section.
unfoldable pub received_crc : List ℕ → ℕ → ℕ
received_crc buf len = bit_or (byte_at buf (len - 4) <<< 24) (
    bit_or (byte_at buf (len - 3) <<< 16)
      (bit_or (byte_at buf (len - 2) <<< 8) (byte_at buf (len - 1))))

unfoldable pub handle_psi_section : List ℕ → ℕ → Demuxer → Option Demuxer
handle_psi_section buf len d =
    if ltb len 4
    then some d
    else if not (calculate_crc32 (take (len - 4) buf) == received_crc buf len)
    then some d
    else if byte_at buf 0 == 0x00
    then some (record d { programs = parse_pat (take len buf) })
    else if byte_at buf 0 == 0x02
    then (do streams ← parse_pmt buf len d.streams; some (record d { streams = streams }))
    else some d

abbrev pub section_size : List ℕ → ℕ
section_size buf = 3 + masked16 0x0f (byte_at buf 1) (byte_at buf 2)

unfoldable pub keep_section : List ℕ → StreamState → StreamState
keep_section buf st = record st { psi_section = buf }

-- `streams_.erase(pid)`, where the source then returns
abbrev pub forget : ℕ → Demuxer → Demuxer
forget pid d = record d { streams = erase_stream pid d.streams }

-- The sections at the front of `buf`, which stays in the table with what is left of it. Every round
-- takes at least three bytes, so its length is fuel enough.
unfoldable pub process_psi_sections : ℕ → List ℕ → ℕ → Demuxer → Option Demuxer
process_psi_sections zero buf pid d =
    some (record d { streams = update_stream (keep_section buf) pid d.streams })
process_psi_sections (suc fuel) buf pid d = elim (ltb (length buf) 3) [
  | true ↦ some (record d { streams = update_stream (keep_section buf) pid d.streams })
  | false ↦ elim (byte_at buf 0 == 0xff || ltb 1021 (section_size buf - 3)) [
    | true ↦ some (forget pid d)
    | false ↦ elim (ltb (length buf) (section_size buf)) [
      | true ↦ some (record d { streams = update_stream (keep_section buf) pid d.streams })
      | false ↦ do
        d' ← handle_psi_section buf (section_size buf) d
        process_psi_sections fuel (drop (section_size buf) buf) pid d'
    ]
  ]
]

-- The section that `streams_[pid]` has, empty if the stream is new.
unfoldable pub psi_of : Option StreamState → List ℕ
psi_of none = []
psi_of (some st) = st.psi_section

-- With a start indicator the first byte says where a section starts.
unfoldable pub parse_psi_start : List ℕ → ℕ → Demuxer → Option Demuxer
parse_psi_start payload pid d =
    let table_start = 1 + byte_at payload 0 in
    let fresh = drop table_start payload in
    if ltb table_start (length payload)
    then if ltb max_psi_section
        (length (psi_of (find_stream pid d.streams)) + length payload - table_start)
      then some (forget pid d)
      else process_psi_sections (length fresh) fresh pid
          (record d { streams = update_stream (keep_section fresh) pid d.streams })
    else some (forget pid d)

unfoldable pub parse_psi_more : List ℕ → ℕ → Demuxer → Option Demuxer
parse_psi_more payload pid d =
    let old = psi_of (find_stream pid d.streams) in
    if length old == 0
    then some (forget pid d)
    else if ltb max_psi_section (length old + length payload)
    then some (forget pid d)
    else process_psi_sections (length (old ++ payload)) (old ++ payload) pid
        (record d { streams = update_stream (keep_section (old ++ payload)) pid d.streams })

unfoldable pub parse_psi : List ℕ → Bool → ℕ → Demuxer → Option Demuxer
parse_psi payload start pid d =
    if start then parse_psi_start payload pid d else parse_psi_more payload pid d
