-- ===== src/Mpegts/Bounded/Pes.antt =====
-- The limits in src/mpegts_demuxer.hpp: `parse_pes`.
use asio_rtc.Common.{
  ℕ, ◌+◌, ◌≤◌, inl, inr, Bool, true, false, ◌&&◌, ltb, ◌==◌, Bool-cases, List, length, drop,
  byte_at, length-append, ltb→le, arith,
}
use asio_rtc.Mpegts.{MediaFrame, StreamState, max_pes_buffer, max_frame_queue}
use asio_rtc.Mpegts.Pes.{
  take_pes, append_pes, continue_pes, start_pes, set_pts, start_bytes, parse_pes, frame_of,
  start_code_offset, has_pts_field, valid_pts, stream_kind,
}
use asio_rtc.Mpegts.Bounded.{IsFit, length-push_frame}

append_pes-IsFit : (bytes : List ℕ) (st : StreamState) → IsFit st → IsFit (append_pes bytes st)
unfolding append_pes
append_pes-IsFit bytes st h =
    elim (Bool-cases (ltb max_pes_buffer (length st.pes_buffer + length bytes))) [
      | inl e ↦ rw (append_pes, e) (omega arith, h.1)
      | inr e ↦
          rw (append_pes, e)
            (let few : length st.pes_buffer + length bytes ≤ max_pes_buffer = ltb→le _ _ e in
              (omega (arith, length-append st.pes_buffer bytes), h.1))
    ]

abbrev pub IsFitQueue : StreamState × List MediaFrame → Type 0
IsFitQueue (st, queue) = IsFit st × (length queue ≤ max_frame_queue)

take_pes-IsFit :
    (st : StreamState) (queue : List MediaFrame)
    → IsFit st
    → length queue ≤ max_frame_queue
    → IsFitQueue (take_pes st queue)
unfolding take_pes
take_pes-IsFit st queue h l = elim (Bool-cases (length st.pes_buffer == 0)) [
  | inl e ↦ rw (take_pes, e) (h, l)
  | inr e ↦ rw (take_pes, e) ((omega arith, h.1), length-push_frame (frame_of st) queue)
]

set_pts-IsFit : (hdr : List ℕ) (st : StreamState) → IsFit st → IsFit (set_pts hdr st)
unfolding set_pts
set_pts-IsFit hdr st h = elim (Bool-cases (has_pts_field hdr && valid_pts hdr)) [
  | inl e ↦ rw (set_pts, e) h
  | inr e ↦ rw (set_pts, e) h
]

start_bytes-IsFit : (hdr : List ℕ) (st : StreamState) → IsFit st → IsFit (start_bytes hdr st)
unfolding start_bytes
start_bytes-IsFit hdr st h = elim (Bool-cases (ltb (9 + byte_at hdr 8) (length hdr))) [
  | inl e ↦ rw (start_bytes, e) (append_pes-IsFit (drop (9 + byte_at hdr 8) hdr) st h)
  | inr e ↦ rw (start_bytes, e) h
]

continue_pes-IsFit :
    (payload : List ℕ) (st : StreamState) → IsFit st → IsFit (continue_pes payload st)
unfolding continue_pes
continue_pes-IsFit payload st h = elim (Bool-cases (length st.pes_buffer == 0)) [
  | inl e ↦ rw (continue_pes, e) h
  | inr e ↦ rw (continue_pes, e) (append_pes-IsFit payload st h)
]

pub parse_pes-IsFit :
    (payload : List ℕ) (start : Bool) (st : StreamState) (queue : List MediaFrame)
    → IsFit st
    → length queue ≤ max_frame_queue
    → IsFitQueue (parse_pes payload start st queue)
unfolding parse_pes start_pes
parse_pes-IsFit payload false st queue h l = (continue_pes-IsFit payload st h, l)
parse_pes-IsFit payload true st queue h l =
    let hdr = drop (start_code_offset payload) payload in
    let known = record st { kind = stream_kind (byte_at hdr 3) st.kind } in
    elim (Bool-cases (ltb (length hdr) 9)) [
      | inl e ↦ rw e (h, l)
      | inr e ↦ rw e (
          let ended : IsFitQueue (take_pes known queue) = take_pes-IsFit known queue h l in
          (start_bytes-IsFit hdr _ (set_pts-IsFit hdr (take_pes known queue).0 ended.0), ended.1))
    ]
