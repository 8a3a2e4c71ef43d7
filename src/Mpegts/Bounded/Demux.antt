-- ===== src/Mpegts/Bounded/Demux.antt =====
-- The limits in src/mpegts_demuxer.hpp: `handle_ts_packet`, `process_ts_packets`, `flush`, `parse`.
use asio_rtc.Common.{
  ℕ, zero, suc, ◌+◌, ◌-◌, ◌≤◌, ◌<◌, ◌≡◌, refl, ap, inl, inr, Bool, ◌||◌, ltb, leb, ◌==◌, Bool-cases,
  Option-cases, Option, none, some, List, [], ◌∷◌, length, take, drop, All, IfSome, IfSome-some,
  or_else, on_kept, arith,
}
use asio_rtc.Mpegts.{
  MediaFrame, StreamState, Demuxer, ts_packet_size, max_frame_queue, find_stream, push_frame,
}
use asio_rtc.Mpegts.Sync.{header_error, unit_start, packet_pid, adaptation_control, find_sync}
use asio_rtc.Mpegts.Pes.{parse_pes, frame_of}
use asio_rtc.Mpegts.Demux.{
  is_pmt_pid, repeats, note_packet, note_counter, payload_offset, pes_payload, handle_payload,
  handle_ts_packet, process_ts_packets, flush_streams, flush, pop_queue, add_bytes, parse_ts,
}
use asio_rtc.Mpegts.Lengths.{found, kept, find_sync-IsFind}
use asio_rtc.Mpegts.Bounded.{
  IsFit, IsFitAt, IsSmall, IsBounded, find_stream-IsFit, update_stream-IsFit, length-push_frame,
  with_streams,
}
use asio_rtc.Mpegts.Bounded.Psi.{parse_psi-IsSmall}
use asio_rtc.Mpegts.Bounded.Pes.{IsFitQueue, parse_pes-IsFit}

pes_payload-IsSmall :
    (payload : List ℕ) (start : Bool) (pid : ℕ) {input : List ℕ} (d : Demuxer)
    → IsSmall input d
    → IsSmall input (pes_payload payload start pid d)
unfolding pes_payload
pes_payload-IsSmall payload start pid d h = elim (Option-cases (find_stream pid d.streams)) [
  | inl e ↦ rw (pes_payload, e) h
  | inr (st, e) ↦
      let fit : IsFit st = (find_stream-IsFit pid d.streams h.streams).holds st e in
      let parsed : IsFitQueue (parse_pes payload start st d.frame_queue) =
        parse_pes-IsFit payload start st d.frame_queue fit h.queue in
      rw (pes_payload, e)
        (record {
          kept_input = h.kept_input;
          queue = parsed.1;
          programs = h.programs;
          streams =
              update_stream-IsFit (λ s. (parse_pes payload start st d.frame_queue).0) pid d.streams
                (λ s f. parsed.0) h.streams;
        })
]

note_counter-IsSmall :
    (packet : List ℕ) {input : List ℕ} (d : Demuxer)
    → IsSmall input d
    → IsSmall input (note_counter packet d)
unfolding note_counter note_packet
note_counter-IsSmall packet d h = elim (Option-cases (find_stream (packet_pid packet) d.streams)) [
  | inl e ↦ rw (note_counter, e) h
  | inr (st, e) ↦
      rw (note_counter, e)
        (with_streams d _ h (
          update_stream-IsFit (note_packet packet) (packet_pid packet) d.streams (λ s f. f)
            h.streams))
]

handle_payload-IsSmall :
    (payload : List ℕ) (start : Bool) (pid : ℕ) {input : List ℕ} (d : Demuxer)
    → IsSmall input d
    → IfSome (IsSmall input) (handle_payload payload start pid d)
unfolding handle_payload
handle_payload-IsSmall payload start pid d h =
    or_else (pid == 0) _ _ (parse_psi-IsSmall payload start 0 d h) (
      or_else (is_pmt_pid pid d.programs) _ _ (parse_psi-IsSmall payload start pid d h)
        (IfSome-some (pes_payload-IsSmall payload start pid d h)))

pub handle_ts_packet-IsSmall :
    (packet : List ℕ) {input : List ℕ} (d : Demuxer)
    → IsSmall input d
    → IfSome (IsSmall input) (handle_ts_packet packet d)
unfolding handle_ts_packet
handle_ts_packet-IsSmall packet d h = or_else (header_error packet) _ _ (IfSome-some h) (
    or_else (repeats packet (find_stream (packet_pid packet) d.streams)) _ _ (IfSome-some h) (
      or_else (leb ts_packet_size (payload_offset packet) || adaptation_control packet == 2) _ _
        (IfSome-some (note_counter-IsSmall packet d h))
        (handle_payload-IsSmall (drop (payload_offset packet) packet) (unit_start packet)
          (packet_pid packet) (note_counter packet d) (note_counter-IsSmall packet d h))))

process_ts_packets-IsBounded :
    (fuel : ℕ) (d : Demuxer)
    → IsSmall d.buffer d
    → d.read_offset ≤ length d.buffer
    → length d.buffer < fuel + d.read_offset
    → IfSome IsBounded (process_ts_packets fuel d)
unfolding process_ts_packets
process_ts_packets-IsBounded zero d h o f = absurd (omega arith)
process_ts_packets-IsBounded (suc fuel) d h o f =
    elim (find_sync-IsFind (suc (length d.buffer)) d.buffer d.read_offset o (omega arith)) [
      | kept e s z ↦
          rw (process_ts_packets, e)
            (IfSome-some (record {
              small = record {
                kept_input = refl;
                queue = h.queue;
                programs = h.programs;
                streams = h.streams;
              };
              short = s;
              offset = z;
            }))
      | found e b after p ↦
          let r = find_sync (suc (length d.buffer)) d.buffer d.read_offset in
          let whole : r.2 + ts_packet_size ≤ length d.buffer = p.whole in
          rw (process_ts_packets, e)
            (on_kept {Q = IsSmall d.buffer}
              (handle_ts_packet (take ts_packet_size (drop r.2 r.1))
                (record d { buffer = r.1; read_offset = r.2 }))
              _
              (handle_ts_packet-IsSmall (take ts_packet_size (drop r.2 r.1)) _ (record {
                kept_input = b;
                queue = h.queue;
                programs = h.programs;
                streams = h.streams;
              }))
              (λ d' k.
                process_ts_packets-IsBounded fuel (record d' { read_offset = r.2 + ts_packet_size })
                  (record {
                    kept_input = refl;
                    queue = k.queue;
                    programs = k.programs;
                    streams = k.streams;
                  })
                  (omega (arith, ap (λ (l : List ℕ). length l) k.kept_input))
                  (omega (arith, ap (λ (l : List ℕ). length l) k.kept_input))))
    ]

flush_streams-IsFit :
    (streams : List (ℕ × StreamState)) (queue : List MediaFrame)
    → All IsFitAt streams
    → length queue ≤ max_frame_queue
    → All IsFitAt (flush_streams streams queue).0
      × (length (flush_streams streams queue).1 ≤ max_frame_queue)
unfolding flush_streams
flush_streams-IsFit [] queue h l = (h, l)
flush_streams-IsFit ((pid, st) ∷ streams) queue h l =
    elim (Bool-cases (length st.pes_buffer == 0)) [
      | inl e ↦
          let later = flush_streams-IsFit streams queue h.1 l in
          rw (flush_streams, e) ((h.0, later.0), later.1)
      | inr e ↦
          let later =
            flush_streams-IsFit streams (push_frame (frame_of st) queue) h.1
              (length-push_frame (frame_of st) queue) in
          rw (flush_streams, e) (((omega arith, h.0.1), later.0), later.1)
    ]

flush-IsBounded : (d : Demuxer) → IsBounded d → IsBounded (flush d)
unfolding flush
flush-IsBounded d h =
    let flushed = flush_streams-IsFit d.streams d.frame_queue h.small.streams h.small.queue in
    record {
      small = record {
        kept_input = refl;
        queue = flushed.1;
        programs = h.small.programs;
        streams = flushed.0;
      };
      short = h.short;
      offset = h.offset;
    }

pop_queue-IsBounded : (d : Demuxer) → IsBounded d → IsBounded (pop_queue d).1
unfolding pop_queue
pop_queue-IsBounded d h = go d.frame_queue h.small.queue
  where
    go :
        (queue : List MediaFrame)
        → length queue ≤ max_frame_queue
        → IsBounded
            (elim queue as (λ q. Option MediaFrame × Demuxer) [
              | [] ↦ (none, d)
              | f ∷ rest ↦ (some f, record d { frame_queue = rest })
            ]).1
    go [] l = h
    go (f ∷ rest) l = record {
      small = record {
        kept_input = refl;
        queue = omega arith;
        programs = h.small.programs;
        streams = h.small.streams;
      };
      short = h.short;
      offset = h.offset;
    }

add_bytes-IsSmall :
    (bytes : List ℕ) (d : Demuxer)
    → IsBounded d
    → IsSmall (add_bytes bytes d).buffer (add_bytes bytes d) × ((add_bytes bytes d).read_offset ≡ 0)
unfolding add_bytes
add_bytes-IsSmall bytes d h =
    elim (Bool-cases (ltb (length d.buffer - d.read_offset) ts_packet_size)) [
      | inl e ↦ rw (add_bytes, e) (small refl, refl)
      | inr e ↦ rw (add_bytes, e) (small refl, h.offset)
    ]
  where
    small :
        {input buffer : List ℕ} {offset : ℕ}
        → buffer ≡ input
        → IsSmall input (record d { buffer = buffer; read_offset = offset })
    small e = record {
      kept_input = e;
      queue = h.small.queue;
      programs = h.small.programs;
      streams = h.small.streams;
    }

-- What `parse` returns keeps less than a packet of input, starting at the front of the buffer, and 64
-- frames, five programs, 4 MiB for each stream and 4096 bytes of a table at most, if that held before.
pub parse_ts-IsBounded :
    (bytes : List ℕ) (d : Demuxer)
    → IsBounded d
    → IfSome (λ (r : Option MediaFrame × ℕ × Demuxer). IsBounded r.2) (parse_ts bytes d)
unfolding parse_ts add_bytes
parse_ts-IsBounded bytes d h = elim (Option-cases (pop_queue d).0) [
  | inr (f, e) ↦ rw (parse_ts, e) (IfSome-some (pop_queue-IsBounded d h))
  | inl e ↦
      rw (parse_ts, e)
        (elim (Bool-cases (length bytes == 0)) [
          | inl z ↦ rw z (IfSome-some (pop_queue-IsBounded (flush d) (flush-IsBounded d h)))
          | inr z ↦ rw z (
              on_kept {Q = IsBounded} (process_ts_packets _ (add_bytes bytes d)) _
                (process_ts_packets-IsBounded _ (add_bytes bytes d) (add_bytes-IsSmall bytes d h).0
                  (omega (arith, (add_bytes-IsSmall bytes d h).1))
                  (omega (arith, (add_bytes-IsSmall bytes d h).1)))
                (λ d' k. IfSome-some (pop_queue-IsBounded d' k)))
        ])
]
