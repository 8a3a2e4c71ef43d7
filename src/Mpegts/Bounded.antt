-- ===== src/Mpegts/Bounded.antt =====
-- How much the demuxer keeps between two calls: the limits, and the stream table. The children show
-- them for the tables, for the elementary streams, and for the packets.
pub mod Psi
pub mod Pes
pub mod Demux
use asio_rtc.Common.{
  ℕ, zero, suc, ◌+◌, ◌-◌, ◌≤◌, ◌<◌, ◌≡◌, refl, sym, ap, bit_or, ◌<<<◌, inl, inr, Bool, true, false,
  not, ◌&&◌, ◌||◌, ltb, leb, ◌==◌, if◌then◌else◌, Bool-cases, Option-cases, ◌>>=◌, Option, none,
  some, List, [], ◌∷◌, ◌++◌, length, take, drop, byte_at, All, length-append, length-drop, ltb→le,
  leb→le, IfSome, IfSome-some, or_else, on_result, on_kept, nothing, arith,
}
use asio_rtc.Mpegts.{
  MediaFrame, StreamState, ProgramInfo, Demuxer, ts_packet_size, max_pes_buffer, max_frame_queue,
  max_psi_section, max_programs, new_stream, find_stream, update_stream, erase_stream, make_room,
  push_frame,
}
use asio_rtc.Mpegts.Sync.{header_error, unit_start, packet_pid, adaptation_control, find_sync}
use asio_rtc.Mpegts.Psi.{
  pat_loop, parse_pat, descriptors, set_format, pmt_loop, parse_pmt, handle_psi_section,
  section_size, keep_section, forget, process_psi_sections, psi_of, parse_psi_start, parse_psi_more,
  parse_psi, masked16, type_format, type_kind, calculate_crc32, received_crc,
}
use asio_rtc.Mpegts.Pes.{
  take_pes, append_pes, continue_pes, start_pes, set_pts, start_bytes, parse_pes, frame_of,
  start_code_offset, has_pts_field, valid_pts, stream_kind,
}
use asio_rtc.Mpegts.Demux.{
  is_pmt_pid, repeats, note_packet, note_counter, payload_offset, pes_payload, handle_payload,
  handle_ts_packet, process_ts_packets, flush_streams, flush, pop_queue, add_bytes, parse_ts,
}
use asio_rtc.Mpegts.Lengths.{IsFind, found, kept, find_sync-IsFind}

-- A stream's buffers are within their limits.
abbrev pub IsFit : StreamState → Type 0
IsFit st = (length st.pes_buffer ≤ max_pes_buffer) × (length st.psi_section ≤ max_psi_section)

abbrev pub IsFitAt : ℕ × StreamState → Type 0
IsFitAt (pid, st) = IsFit st

-- The queue, the programs and the streams are within their limits; the buffer is `input`.
pub record IsSmall (input : List ℕ) (d : Demuxer) : Type 0 where
  pub kept_input : d.buffer ≡ input
  pub queue : length d.frame_queue ≤ max_frame_queue
  pub programs : length d.programs ≤ max_programs
  pub streams : All IsFitAt d.streams

-- In addition less than one packet waits for the rest of it.
pub record IsBounded (d : Demuxer) : Type 0 where
  pub small : IsSmall d.buffer d
  pub short : length d.buffer < ts_packet_size
  pub offset : d.read_offset ≡ 0

pub find_stream-IsFit :
    (pid : ℕ) (streams : List (ℕ × StreamState))
    → All IsFitAt streams
    → IfSome IsFit (find_stream pid streams)
unfolding find_stream
find_stream-IsFit pid [] h = nothing
find_stream-IsFit pid ((key, st) ∷ streams) h =
    or_else (key == pid) (some st) (find_stream pid streams) (IfSome-some h.0)
      (find_stream-IsFit pid streams h.1)

pub update_stream-IsFit :
    (f : StreamState → StreamState) (pid : ℕ) (streams : List (ℕ × StreamState))
    → ((st : StreamState) → IsFit st → IsFit (f st))
    → All IsFitAt streams
    → All IsFitAt (update_stream f pid streams)
unfolding update_stream
update_stream-IsFit f pid [] k h = (k new_stream (omega arith, omega arith), tt)
update_stream-IsFit f pid ((key, st) ∷ streams) k h = elim (Bool-cases (key == pid)) [
  | inl e ↦ rw (update_stream, e) (k st h.0, h.1)
  | inr e ↦ elim (Bool-cases (ltb key pid)) [
    | inl l ↦ rw (update_stream, e, l) (h.0, update_stream-IsFit f pid streams k h.1)
    | inr l ↦ rw (update_stream, e, l) (k new_stream (omega arith, omega arith), h)
  ]
]

pub erase_stream-IsFit :
    (pid : ℕ) (streams : List (ℕ × StreamState))
    → All IsFitAt streams
    → All IsFitAt (erase_stream pid streams)
unfolding erase_stream
erase_stream-IsFit pid [] h = h
erase_stream-IsFit pid ((key, st) ∷ streams) h = elim (Bool-cases (key == pid)) [
  | inl e ↦ rw (erase_stream, e) h.1
  | inr e ↦ rw (erase_stream, e) (h.0, erase_stream-IsFit pid streams h.1)
]

length-make_room : (queue : List MediaFrame) → length (make_room queue) < max_frame_queue
unfolding make_room
length-make_room [] = omega arith
length-make_room (f ∷ queue) = ground (arith, length-make_room queue)

pub length-push_frame :
    (f : MediaFrame) (queue : List MediaFrame) → length (push_frame f queue) ≤ max_frame_queue
unfolding push_frame
length-push_frame f queue =
    omega (arith, length-make_room queue, length-append {0} (make_room queue) (f ∷ []))

pub with_streams :
    {input : List ℕ} (d : Demuxer) (streams : List (ℕ × StreamState))
    → IsSmall input d
    → All IsFitAt streams
    → IsSmall input (record d { streams = streams })
with_streams d streams h k = record {
  kept_input = h.kept_input;
  queue = h.queue;
  programs = h.programs;
  streams = k;
}
