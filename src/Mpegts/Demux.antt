-- ===== src/Mpegts/Demux.antt =====
-- src/mpegts_demuxer.hpp: `handle_ts_packet`, `process_ts_packets`, `flush` and `parse`. `none` is a
-- read behind a buffer, which only the descriptors of a program map can make.
use asio_rtc.Common.{
  ℕ, zero, suc, ◌+◌, ◌-◌, Bool, true, false, ltb, leb, not, ◌&&◌, ◌||◌, ◌==◌, if◌then◌else◌, Option,
  none, some, ◌>>=◌, List, [], ◌∷◌, ◌++◌, length, take, drop, byte_at,
}
use asio_rtc.Mpegts.{
  MediaFrame, StreamState, ProgramInfo, Demuxer, ts_packet_size, find_stream, update_stream,
  push_frame,
}
use asio_rtc.Mpegts.Sync.{
  header_error, unit_start, packet_pid, adaptation_control, continuity, find_sync,
}
use asio_rtc.Mpegts.Psi.{parse_psi}
use asio_rtc.Mpegts.Pes.{frame_of, parse_pes}

unfoldable pub is_pmt_pid : ℕ → List ProgramInfo → Bool
is_pmt_pid pid [] = false
is_pmt_pid pid (p ∷ programs) = p.pmt_pid == pid || is_pmt_pid pid programs

-- The same counter as the packet before on this stream.
unfoldable pub repeats : List ℕ → Option StreamState → Bool
repeats packet none = false
repeats packet (some st) = not st.first_cc && continuity packet == st.continuity_counter

unfoldable pub note_packet : List ℕ → StreamState → StreamState
note_packet packet st = record st { continuity_counter = continuity packet; first_cc = false }

-- A stream that is in the table notes the counter.
unfoldable pub note_counter : List ℕ → Demuxer → Demuxer
note_counter packet d = elim (find_stream (packet_pid packet) d.streams) [
  | none ↦ d
  | some st ↦ record d {
    streams = update_stream (note_packet packet) (packet_pid packet) d.streams;
  }
]

-- `offset` behind the adaptation field
unfoldable pub payload_offset : List ℕ → ℕ
payload_offset packet =
    if adaptation_control packet == 2 || adaptation_control packet == 3
    then 4 + (1 + byte_at packet 4)
    else 4

unfoldable pub pes_payload : List ℕ → Bool → ℕ → Demuxer → Demuxer
pes_payload payload start pid d = elim (find_stream pid d.streams) [
  | none ↦ d
  | some st ↦
      let (st', queue) = parse_pes payload start st d.frame_queue in
      record d { streams = update_stream (λ s. st') pid d.streams; frame_queue = queue }
]

unfoldable pub handle_payload : List ℕ → Bool → ℕ → Demuxer → Option Demuxer
handle_payload payload start pid d =
    if pid == 0
    then parse_psi payload start 0 d
    else if is_pmt_pid pid d.programs
    then parse_psi payload start pid d
    else some (pes_payload payload start pid d)

unfoldable pub handle_ts_packet : List ℕ → Demuxer → Option Demuxer
handle_ts_packet packet d =
    if header_error packet
    then some d
    else if repeats packet (find_stream (packet_pid packet) d.streams)
    then some d
    else if leb ts_packet_size (payload_offset packet) || adaptation_control packet == 2
    then some (note_counter packet d)
    else handle_payload (drop (payload_offset packet) packet) (unit_start packet)
        (packet_pid packet) (note_counter packet d)

-- A round handles a packet of the buffer, so the buffer's length is fuel enough.
unfoldable pub process_ts_packets : ℕ → Demuxer → Option Demuxer
process_ts_packets zero d = some d
process_ts_packets (suc fuel) d =
    let (found, buffer, offset) = find_sync (suc (length d.buffer)) d.buffer d.read_offset in
    let d' = record d { buffer = buffer; read_offset = offset } in
    elim found [
      | false ↦ some d'
      | true ↦ do
        d'' ← handle_ts_packet (take ts_packet_size (drop offset buffer)) d'
        process_ts_packets fuel (record d'' { read_offset = offset + ts_packet_size })
    ]

unfoldable pub flush_streams :
    List (ℕ × StreamState) → List MediaFrame → List (ℕ × StreamState) × List MediaFrame
flush_streams [] queue = ([], queue)
flush_streams ((pid, st) ∷ streams) queue =
    if length st.pes_buffer == 0
    then (let (streams', queue') = flush_streams streams queue in ((pid, st) ∷ streams', queue'))
    else (let (streams', queue') = flush_streams streams (push_frame (frame_of st) queue) in
        ((pid, record st { pes_buffer = [] }) ∷ streams', queue'))

unfoldable pub flush : Demuxer → Demuxer
flush d =
    let (streams, queue) = flush_streams d.streams d.frame_queue in
    record d { streams = streams; frame_queue = queue }

-- The frame at the front of the queue, if there is one.
unfoldable pub pop_queue : Demuxer → Option MediaFrame × Demuxer
pop_queue d = elim d.frame_queue [
  | [] ↦ (none, d)
  | f ∷ queue ↦ (some f, record d { frame_queue = queue })
]

-- Room is made for the new bytes where no packet can stand in the old ones.
unfoldable pub add_bytes : List ℕ → Demuxer → Demuxer
add_bytes bytes d =
    if ltb (length d.buffer - d.read_offset) ts_packet_size
    then record d { buffer = drop d.read_offset d.buffer ++ bytes; read_offset = 0 }
    else record d { buffer = d.buffer ++ bytes }

-- The frame, how many bytes were taken, and the new state. Where the source leaves `consumed` as the
-- caller set it, that is 0.
unfoldable pub parse_ts : List ℕ → Demuxer → Option (Option MediaFrame × ℕ × Demuxer)
parse_ts bytes d =
    let (waiting, popped) = pop_queue d in
    elim waiting [
      | some f ↦ some (some f, 0, popped)
      | none ↦ elim (length bytes == 0) [
        | true ↦ let (last, ended) = pop_queue (flush d) in some (last, 0, ended)
        | false ↦
            let added = add_bytes bytes d in
            do
              d' ← process_ts_packets (suc (length added.buffer)) added
              some ((pop_queue d').0, length bytes, (pop_queue d').1)
      ]
    ]
