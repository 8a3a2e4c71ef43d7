-- ===== src/Mpegts/Repeated.antt =====
-- A packet that comes again is ignored.
use asio_rtc.Common.{
  ℕ, ◌+◌, ◌≡◌, refl, sym, ◌∙◌, inl, inr, Bool, true, false, ◌&&◌, ◌||◌, ltb, leb, ◌==◌, ==_iff,
  Bool-cases, Option-cases, ◌⊎◌, some, List, [], ◌∷◌, arith, drop,
}
use asio_rtc.Mpegts.{
  MediaFrame, StreamState, Demuxer, ts_packet_size, max_pes_buffer, new_stream, find_stream,
  update_stream,
}
use asio_rtc.Mpegts.Sync.{header_error, unit_start, packet_pid, adaptation_control, continuity}
use asio_rtc.Mpegts.Pes.{
  take_pes, append_pes, continue_pes, start_pes, set_pts, start_bytes, parse_pes, has_pts_field,
  valid_pts, stream_kind, start_code_offset,
}
use asio_rtc.Mpegts.Demux.{
  is_pmt_pid, repeats, note_packet, note_counter, payload_offset, pes_payload, handle_payload,
  handle_ts_packet,
}
use asio_rtc.Common.{length, byte_at}

find_later :
    (key pid : ℕ) (st : StreamState) (streams : List (ℕ × StreamState))
    → key == pid ≡ false
    → find_stream pid ((key, st) ∷ streams) ≡ find_stream pid streams
unfolding find_stream
find_later key pid st streams e = rw e refl

-- What the table holds after an update.
find_stream-update_stream :
    (f : StreamState → StreamState) (pid : ℕ) (streams : List (ℕ × StreamState)) (st : StreamState)
    → find_stream pid streams ≡ some st
    → (s : StreamState) × (find_stream pid (update_stream f pid streams) ≡ some (f s))
unfolding find_stream update_stream
find_stream-update_stream f pid [] st e = absurd (ground (arith, e))
find_stream-update_stream f pid ((key, s) ∷ streams) st e = elim (Bool-cases (key == pid)) [
  | inl k ↦ (s, rw (update_stream, k) (rw (find_stream, k) refl))
  | inr k ↦ elim (Bool-cases (ltb key pid)) [
    | inl l ↦
        let later =
          find_stream-update_stream f pid streams st (sym (find_later key pid s streams k) ∙ e) in
        (later.0, rw (update_stream, k, l) (find_later key pid s _ k ∙ later.1))
    | inr l ↦ (new_stream, rw (update_stream, k, l) (rw (find_stream, same pid) refl))
  ]
]
  where
    same : (n : ℕ) → n == n ≡ true
    same n = (==_iff n n).1 refl

-- A stream's counter, once it is noted.
abbrev IsNoted : List ℕ → StreamState → Type 0
IsNoted packet st = (st.continuity_counter ≡ continuity packet) × (st.first_cc ≡ false)

append_pes-IsNoted :
    (packet bytes : List ℕ) (st : StreamState)
    → IsNoted packet st
    → IsNoted packet (append_pes bytes st)
unfolding append_pes
append_pes-IsNoted packet bytes st h =
    elim (Bool-cases (ltb max_pes_buffer (length st.pes_buffer + length bytes))) [
      | inl e ↦ rw (append_pes, e) h
      | inr e ↦ rw (append_pes, e) h
    ]

continue_pes-IsNoted :
    (packet payload : List ℕ) (st : StreamState)
    → IsNoted packet st
    → IsNoted packet (continue_pes payload st)
unfolding continue_pes
continue_pes-IsNoted packet payload st h = elim (Bool-cases (length st.pes_buffer == 0)) [
  | inl e ↦ rw (continue_pes, e) h
  | inr e ↦ rw (continue_pes, e) (append_pes-IsNoted packet payload st h)
]

take_pes-IsNoted :
    (packet : List ℕ) (st : StreamState) (queue : List MediaFrame)
    → IsNoted packet st
    → IsNoted packet (take_pes st queue).0
unfolding take_pes
take_pes-IsNoted packet st queue h = elim (Bool-cases (length st.pes_buffer == 0)) [
  | inl e ↦ rw (take_pes, e) h
  | inr e ↦ rw (take_pes, e) h
]

set_pts-IsNoted :
    (packet hdr : List ℕ) (st : StreamState) → IsNoted packet st → IsNoted packet (set_pts hdr st)
unfolding set_pts
set_pts-IsNoted packet hdr st h = elim (Bool-cases (has_pts_field hdr && valid_pts hdr)) [
  | inl e ↦ rw (set_pts, e) h
  | inr e ↦ rw (set_pts, e) h
]

start_bytes-IsNoted :
    (packet hdr : List ℕ) (st : StreamState)
    → IsNoted packet st
    → IsNoted packet (start_bytes hdr st)
unfolding start_bytes
start_bytes-IsNoted packet hdr st h = elim (Bool-cases (ltb (9 + byte_at hdr 8) (length hdr))) [
  | inl e ↦ rw (start_bytes, e) (append_pes-IsNoted packet (drop (9 + byte_at hdr 8) hdr) st h)
  | inr e ↦ rw (start_bytes, e) h
]

parse_pes-IsNoted :
    (packet payload : List ℕ) (start : Bool) (st : StreamState) (queue : List MediaFrame)
    → IsNoted packet st
    → IsNoted packet (parse_pes payload start st queue).0
unfolding parse_pes start_pes
parse_pes-IsNoted packet payload false st queue h = continue_pes-IsNoted packet payload st h
parse_pes-IsNoted packet payload true st queue h =
    let hdr = drop (start_code_offset payload) payload in
    let known = record st { kind = stream_kind (byte_at hdr 3) st.kind } in
    elim (Bool-cases (ltb (length hdr) 9)) [
      | inl e ↦ rw e h
      | inr e ↦ rw e (
          start_bytes-IsNoted packet hdr _
            (set_pts-IsNoted packet hdr _ (take_pes-IsNoted packet known queue h)))
    ]

-- The stream that the packet belongs to has its counter.
abbrev HasNoted : List ℕ → Demuxer → Type 0
HasNoted packet d =
    (st : StreamState) × (find_stream (packet_pid packet) d.streams ≡ some st) × IsNoted packet st

note_counter-HasNoted :
    (packet : List ℕ) (d : Demuxer) (st : StreamState)
    → find_stream (packet_pid packet) d.streams ≡ some st
    → HasNoted packet (note_counter packet d)
unfolding note_counter note_packet
note_counter-HasNoted packet d st e =
    let noted = find_stream-update_stream (note_packet packet) (packet_pid packet) d.streams st e in
    rw (note_counter, e) (note_packet packet noted.0, noted.1, (refl, refl))

pes_payload-HasNoted :
    (packet payload : List ℕ) (start : Bool) (d : Demuxer)
    → HasNoted packet d
    → HasNoted packet (pes_payload payload start (packet_pid packet) d)
unfolding pes_payload
pes_payload-HasNoted packet payload start d (st, e, h) =
    let parsed = (parse_pes payload start st d.frame_queue).0 in
    let updated = find_stream-update_stream (λ s. parsed) (packet_pid packet) d.streams st e in
    rw (pes_payload, e)
      (parsed, updated.1, parse_pes-IsNoted packet payload start st d.frame_queue h)

ignored : (packet : List ℕ) (d : Demuxer) → HasNoted packet d → handle_ts_packet packet d ≡ some d
unfolding handle_ts_packet repeats
ignored packet d (st, e, (c, f)) =
    let same : (continuity packet == st.continuity_counter) ≡ true = (==_iff _ _).1 (sym c) in
    elim (Bool-cases (header_error packet)) [
      | inl x ↦ rw (handle_ts_packet, x) refl
      | inr x ↦ rw (handle_ts_packet, x) (rw (e, f, same) refl)
    ]

-- What the handler does with a packet of a stream.
handle_ts_packet_stream :
    (packet : List ℕ) (d : Demuxer)
    → packet_pid packet == 0 ≡ false
    → is_pmt_pid (packet_pid packet) d.programs ≡ false
    → is_pmt_pid (packet_pid packet) (note_counter packet d).programs ≡ false
    → (handle_ts_packet packet d ≡ some d)
      ⊎ ((handle_ts_packet packet d ≡ some (note_counter packet d))
          ⊎ (handle_ts_packet packet d
              ≡ some (
                  pes_payload
                    (drop (payload_offset packet) packet)
                    (unit_start packet)
                    (packet_pid packet)
                    (note_counter packet d))))
unfolding handle_ts_packet handle_payload
handle_ts_packet_stream packet d z m n = elim (Bool-cases (header_error packet)) [
  | inl x ↦ inl (rw (handle_ts_packet, x) refl)
  | inr x ↦ elim (Bool-cases (repeats packet (find_stream (packet_pid packet) d.streams))) [
    | inl r ↦ inl (rw (handle_ts_packet, x, r) refl)
    | inr r ↦
        elim (Bool-cases
          (leb ts_packet_size (payload_offset packet) || adaptation_control packet == 2)) [
            | inl a ↦ inr (inl (rw (handle_ts_packet, x, r, a) refl))
            | inr a ↦ inr (inr (rw (handle_ts_packet, x, r, a) (rw (handle_payload, z, n) refl)))
          ]
  ]
]

programs-note_counter :
    (packet : List ℕ) (d : Demuxer) → (note_counter packet d).programs ≡ d.programs
unfolding note_counter
programs-note_counter packet d = elim (Option-cases (find_stream (packet_pid packet) d.streams)) [
  | inl e ↦ rw (note_counter, e) refl
  | inr (st, e) ↦ rw (note_counter, e) refl
]

-- Handling a packet of an elementary stream twice in a row is handling it once: it succeeds, and the
-- second time nothing changes, with a payload or without. The stream is in the table, and the
-- packet's identifier is not that of a table.
pub handle_ts_packet_twice :
    (packet : List ℕ) (d : Demuxer) (st : StreamState)
    → find_stream (packet_pid packet) d.streams ≡ some st
    → packet_pid packet == 0 ≡ false
    → is_pmt_pid (packet_pid packet) d.programs ≡ false
    → (d' : Demuxer) × (handle_ts_packet packet d ≡ some d')
      × (handle_ts_packet packet d' ≡ some d')
handle_ts_packet_twice packet d st e z m =
    let noted = note_counter-HasNoted packet d st e in
    let again : is_pmt_pid (packet_pid packet) (note_counter packet d).programs ≡ false =
      rw (programs-note_counter packet d) m in
    elim (handle_ts_packet_stream packet d z m again) [
      | inl same ↦ (d, same, same)
      | inr (inl no_payload) ↦ (_, no_payload, ignored packet _ noted)
      | inr (inr payload) ↦ (
        _,
        payload,
        ignored packet _ (pes_payload-HasNoted packet _ _ (note_counter packet d) noted),
      )
    ]
