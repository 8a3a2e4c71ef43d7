-- ===== src/Twcc.antt =====
-- src/twcc.cpp, src/twcc.hpp, and the header extensions of include/asiortc/rtp.hpp: which packets came
-- when, for the sender's congestion control. The clock is an argument, in nanoseconds; the reports
-- that the source hands to a callback are the result.
pub mod Report
pub mod Elements
use asio_rtc.Common.{
  ℕ, zero, suc, ◌+◌, ◌-◌, ◌*◌, ◌/◌, ◌%◌, ◌^◌, bit_and, bit_or, u8, u16, ◌<<<◌, ◌>>>◌, Bool, true,
  false, ◌&&◌, not, ltb, leb, ◌==◌, if◌then◌else◌, Option, none, some, List, [], ◌∷◌, ◌++◌, length,
  take, drop, byte_at,
}
use asio_rtc.Binary.{Binary}
use asio_rtc.Tcc.{
  TransportCcFeedback, build_transport_cc, TccPacketStatus, not_received, small_delta, large_delta,
  received_without_delta, TccPacketInfo, tcc_build_packet_status,
}

pub record RtpExtElement : Type 0 where
  pub id : ℕ
  pub length : ℕ
  pub content : List ℕ

-- The walk of `rtp_ext_iterator` up to its sentinel: an element that does not fit ends it.
unfoldable pub ext_elements : ℕ → List ℕ → List RtpExtElement
ext_elements zero buf = []
ext_elements (suc fuel) [] = []
ext_elements (suc fuel) (hdr ∷ buf) =
    let size = bit_and hdr 0xf + 1 in
    let rest = ext_elements fuel (drop size buf) in
    if ltb (length buf) size
    then []
    else record { id = bit_and (hdr >>> 4) 0xf; length = size; content = take size buf } ∷ rest

pub record TccEntry : Type 0 where
  pub seq : ℕ
  pub ts : ℕ

pub record TransportCc : Type 0 where
  pub recv : List TccEntry
  pub next_report_seq : ℕ
  pub sender_ssrc : ℕ
  pub media_ssrc : ℕ
  pub fb_count : ℕ

unfoldable pub set_sender_ssrc : ℕ → TransportCc → TransportCc
set_sender_ssrc ssrc t = record t { sender_ssrc = ssrc }

unfoldable pub set_media_ssrc : ℕ → TransportCc → TransportCc
set_media_ssrc ssrc t = record t { media_ssrc = ssrc }

-- `static_cast<int16_t>(a.seq - b.seq) < 0`
unfoldable pub seq_before : ℕ → ℕ → Bool
seq_before a b = leb (2 ^ 15) ((a + (2 ^ 16 - b)) % 2 ^ 16)

-- `std::lower_bound` and the insertion in front of it, unless the number is there. The binary search
-- and this one find the same place in a list that the order divides in two, which the source relies on.
unfoldable pub insert_entry : TccEntry → List TccEntry → List TccEntry
insert_entry e [] = e ∷ []
insert_entry e (x ∷ entries) =
    if seq_before x.seq e.seq
    then x ∷ insert_entry e entries
    else if x.seq == e.seq
    then x ∷ entries
    else e ∷ x ∷ entries

-- The clock is read for each element of the right kind; it is given by the elements still to come.
unfoldable pub insert_elements : (ℕ → ℕ) → List RtpExtElement → List TccEntry → List TccEntry
insert_elements clock [] recv = recv
insert_elements clock (ext ∷ elements) recv =
    let seq = bit_or (byte_at ext.content 0 <<< 8) (byte_at ext.content 1) in
    insert_elements clock elements (
      if ext.id == 4 && ext.length == 2
      then insert_entry (record { seq = seq; ts = clock (length elements) }) recv
      else recv)

-- `duration_cast<microseconds>(to - from).count() / 250`: the sign, and the size rounded down.
unfoldable pub delta_of : ℕ → ℕ → Bool × ℕ
delta_of from to = (ltb to from, (if ltb to from then from - to else to - from) / 1000 / 250)

-- A negative number reaches one further than a positive one.
unfoldable pub fits_delta : ℕ → Bool × ℕ → Bool
fits_delta bound (negative, size) = if negative then leb size bound else ltb size bound

unfoldable pub status_of : Bool × ℕ → TccPacketStatus
status_of d =
    if fits_delta 128 d
    then small_delta
    else if fits_delta 32768 d
    then large_delta
    else received_without_delta

-- `static_cast<int16_t>`
unfoldable pub delta_bits : Bool × ℕ → ℕ
delta_bits (negative, size) = if negative then u16 (2 ^ 16 - u16 size) else u16 size

abbrev pub not_there : TccPacketInfo
not_there = record { status = not_received; delta = 0 }

abbrev pub arrived : ℕ → TccEntry → TccPacketInfo
arrived last_ts e = record {
  status = status_of (delta_of last_ts e.ts);
  delta = delta_bits (delta_of last_ts e.ts);
}

-- `packets.push_back`
abbrev pub push_back :
    TccPacketInfo → List TccPacketInfo × ℕ × List TccEntry → List TccPacketInfo × ℕ × List TccEntry
push_back p (packets, next, entries) = (p ∷ packets, next, entries)

-- The two loops of `report`. The outer one tests the count in front of each entry, the inner one, that
-- fills up to the entry's number, tests it in front of each missing packet; the flag says that the
-- entry has passed the outer test. `left` is how many may still be added. The result: what is
-- reported, the next number, and the entries that stay.
unfoldable pub report_loop :
    ℕ → ℕ → Bool → ℕ → ℕ → List TccEntry → List TccPacketInfo × ℕ × List TccEntry
report_loop zero left inside next last_ts entries = ([], next, entries)
report_loop (suc fuel) left inside next last_ts [] = ([], next, [])
report_loop (suc fuel) left inside next last_ts (e ∷ entries) = elim (not inside && left == 0) [
  | true ↦ ([], next, e ∷ entries)
  | false ↦ elim (next == e.seq) [
    | true ↦
        push_back (arrived last_ts e)
          (report_loop fuel (left - 1) false (u16 (next + 1)) e.ts entries)
    | false ↦ elim (left == 0) [
      | true ↦ ([], next, e ∷ entries)
      | false ↦
          push_back not_there
            (report_loop fuel (left - 1) true (u16 (next + 1)) last_ts (e ∷ entries))
    ]
  ]
]

abbrev pub max_tcc_count : ℕ
max_tcc_count = 100

-- The first report starts at the first number that came.
unfoldable pub report_start : TransportCc → TccEntry → ℕ
report_start t first = if t.fb_count == 0 then first.seq else t.next_report_seq

abbrev pub ref_64ms : TccEntry → ℕ
ref_64ms first = first.ts / 1000 / 64000 * 64000

-- The packets of a report; a round adds one, and there are at most one more than the limit.
unfoldable pub report_packets : TransportCc → TccEntry → List TccPacketInfo × ℕ × List TccEntry
report_packets t first =
    report_loop (max_tcc_count + 2) max_tcc_count false (report_start t first)
      (first.ts - (first.ts / 1000 - ref_64ms first) * 1000) t.recv

module _ (bin : Binary) where
  unfoldable pub report_from : TransportCc → TccEntry → List ℕ × TransportCc
  report_from t first =
      let (packets, next, entries) = report_packets t first in
      (
        build_transport_cc bin (record {
          sender_ssrc = t.sender_ssrc;
          media_ssrc = t.media_ssrc;
          base_seq = report_start t first;
          status_count = u16 (length packets);
          reference_time = bit_and (ref_64ms first / 64000) 0xffffff;
          feedback_packet_count = u8 (t.fb_count + 1);
          packet_chunks = tcc_build_packet_status bin packets;
        }),
        record t { recv = entries; next_report_seq = next; fb_count = u8 (t.fb_count + 1) },
      )

  unfoldable pub report : TransportCc → List ℕ × TransportCc
  report t = elim t.recv [ [] ↦ ([], t) | first ∷ entries ↦ report_from t first ]

  -- `while (_recv.size() > 200)`, with the rounds that are left.
  unfoldable pub flush_loop : ℕ → TransportCc → List (List ℕ) × TransportCc
  flush_loop zero t = ([], t)
  flush_loop (suc fuel) t =
      let sent = report t in
      let rest = flush_loop fuel sent.1 in
      if ltb 200 (length t.recv) then (sent.0 ∷ rest.0, rest.1) else ([], t)

  unfoldable pub handle_incoming : ℕ → (ℕ → ℕ) → List ℕ → TransportCc → List (List ℕ) × TransportCc
  handle_incoming rounds clock ext_data t =
      flush_loop rounds
        (record t { recv = insert_elements clock (ext_elements (length ext_data) ext_data) t.recv })
