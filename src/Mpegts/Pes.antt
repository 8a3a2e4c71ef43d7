-- ===== src/Mpegts/Pes.antt =====
-- src/mpegts_demuxer.hpp: `parse_pes`, on the stream's state and the queue of frames.
use asio_rtc.Common.{
  ℕ, ◌+◌, bit_and, bit_or, u32, ◌<<<◌, ◌>>>◌, Bool, true, false, ltb, leb, not, ◌&&◌, ◌||◌, ◌==◌,
  if◌then◌else◌, List, [], ◌++◌, length, drop, byte_at,
}
use asio_rtc.Mpegts.{MediaKind, audio, video, MediaFrame, StreamState, max_pes_buffer, push_frame}

-- The frame of the bytes collected; without a time stamp it has that of a new frame, 0.
unfoldable pub frame_of : StreamState → MediaFrame
frame_of st = record {
  kind = st.kind;
  format = st.format;
  timestamp = if st.has_pts then st.current_pts else 0;
  content = st.pes_buffer;
}

-- A moved-from vector is empty.
unfoldable pub take_pes : StreamState → List MediaFrame → StreamState × List MediaFrame
take_pes st queue =
    if length st.pes_buffer == 0
    then (st, queue)
    else (record st { pes_buffer = [] }, push_frame (frame_of st) queue)

-- `pes.insert` under the limit; beyond it all is dropped.
unfoldable pub append_pes : List ℕ → StreamState → StreamState
append_pes bytes st =
    if ltb max_pes_buffer (length st.pes_buffer + length bytes)
    then record st { pes_buffer = [] }
    else record st { pes_buffer = st.pes_buffer ++ bytes }

unfoldable pub continue_pes : List ℕ → StreamState → StreamState
continue_pes payload st = if length st.pes_buffer == 0 then st else append_pes payload st

-- Where the start code of the header is; without one the header is read at the start.
unfoldable pub start_code_offset : List ℕ → ℕ
start_code_offset payload =
    if leb 3 (length payload)
      && byte_at payload 0 == 0
      && byte_at payload 1 == 0
      && byte_at payload 2 == 1
    then 0
    else if leb 4 (length payload)
        && byte_at payload 1 == 0
        && byte_at payload 2 == 0
        && byte_at payload 3 == 1
    then 1
    else 0

unfoldable pub stream_kind : ℕ → MediaKind → MediaKind
stream_kind stream_id k =
    if (leb 0xc0 stream_id && leb stream_id 0xdf) || stream_id == 0xbd || stream_id == 0xbf
    then audio
    else if leb 0xe0 stream_id && leb stream_id 0xef
    then video
    else k

-- `hdr` are the bytes from the header on.
unfoldable pub has_pts_field : List ℕ → Bool
has_pts_field hdr =
    not (bit_and (byte_at hdr 7) 0xc0 == 0) && leb 5 (byte_at hdr 8) && leb (9 + 5) (length hdr)

unfoldable pub valid_pts : List ℕ → Bool
valid_pts hdr =
    leb 2 (bit_and (byte_at hdr 7 >>> 6) 0x03)
    && bit_and (byte_at hdr 9) 0xf0 == 0x20
    && bit_and (byte_at hdr 11) 0x01 == 0x01
    && bit_and (byte_at hdr 13) 0x01 == 0x01

unfoldable pub read_pts : List ℕ → ℕ
read_pts hdr = u32 (
    bit_or (bit_and (byte_at hdr 9) 0x0e <<< 29) (
      bit_or (byte_at hdr 10 <<< 22) (
        bit_or (bit_and (byte_at hdr 11) 0xfe <<< 14)
          (bit_or (byte_at hdr 12 <<< 7) (bit_and (byte_at hdr 13) 0xfe >>> 1)))))

unfoldable pub set_pts : List ℕ → StreamState → StreamState
set_pts hdr st =
    if has_pts_field hdr && valid_pts hdr
    then record st { current_pts = read_pts hdr; has_pts = true }
    else record st { has_pts = false }

unfoldable pub start_bytes : List ℕ → StreamState → StreamState
start_bytes hdr st =
    if ltb (9 + byte_at hdr 8) (length hdr)
    then append_pes (drop (9 + byte_at hdr 8) hdr) st
    else st

-- The header of a new unit, which ends the unit before.
unfoldable pub start_pes : List ℕ → StreamState → List MediaFrame → StreamState × List MediaFrame
start_pes hdr st queue =
    let (ended, queue') =
      take_pes (record st { kind = stream_kind (byte_at hdr 3) st.kind }) queue in
    (start_bytes hdr (set_pts hdr ended), queue')

unfoldable pub parse_pes :
    List ℕ → Bool → StreamState → List MediaFrame → StreamState × List MediaFrame
parse_pes payload start st queue =
    let hdr = drop (start_code_offset payload) payload in
    if not start
    then (continue_pes payload st, queue)
    else if ltb (length hdr) 9
    then (st, queue)
    else start_pes hdr st queue
