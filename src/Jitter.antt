-- ===== src/Jitter.antt =====
-- src/jitter_buffer.cpp and src/jitter_buffer.hpp: packets in order, a frame at a time.
-- `std::map` is the list of its entries, by rising key. Times are nanoseconds of a steady clock;
-- `max_delay` is in milliseconds.
pub mod Seq
pub mod Order
pub mod Frame
pub mod Progress
use asio_rtc.Common.{
  ℕ, ◌+◌, ◌*◌, ◌/◌, ◌%◌, ◌^◌, bit_or, u32, ◌<<<◌, ◌>>>◌, Bool, true, false, ◌&&◌, ltb, leb, ◌==◌,
  if◌then◌else◌, Option, none, some, List, [], ◌∷◌,
}
use asio_rtc.Rtp.{RtpPacket}

abbrev pub Entry : Type 0
Entry = ℕ × RtpPacket

pub record JitterBuffer : Type 0 where
  pub sorted : List Entry
  pub next_extended_seq : ℕ
  pub first_packet : Bool
  pub max_delay : ℕ
  pub gap_start : Option ℕ
  pub video_wait_start : Option ℕ
  pub is_video : Bool

unfoldable pub jitter_buffer : ℕ → Bool → JitterBuffer
jitter_buffer max_delay is_video = record {
  sorted = [];
  next_extended_seq = 0;
  first_packet = true;
  max_delay = max_delay;
  gap_start = none;
  video_wait_start = none;
  is_video = is_video;
}

-- `_extend_seq`: the mask leaves the high half of the last number.
unfoldable pub extend_seq : ℕ → ℕ → ℕ
extend_seq seq last_extended =
    let extended = bit_or (last_extended >>> 16 <<< 16) seq in
    if ltb (u32 (extended + 0x8000)) last_extended then u32 (extended + 0x10000) else extended

-- `find` on the map, as a test.
unfoldable pub contains : ℕ → List Entry → Bool
contains key [] = false
contains key ((k, p) ∷ es) = if k == key then true else contains key es

-- `emplace` of a key that is not there.
unfoldable pub insert : ℕ → RtpPacket → List Entry → List Entry
insert key pkt [] = (key, pkt) ∷ []
insert key pkt ((k, p) ∷ es) =
    if ltb key k then (key, pkt) ∷ (k, p) ∷ es else (k, p) ∷ insert key pkt es

-- `payload.empty()`
unfoldable pub is_empty : List ℕ → Bool
is_empty [] = true
is_empty (b ∷ bs) = false

-- `push` behind the test for the first packet.
unfoldable pub store : JitterBuffer → ℕ → RtpPacket → JitterBuffer
store j extended pkt =
    if ltb extended j.next_extended_seq
    then j
    else if contains extended j.sorted
    then j
    else record j { sorted = insert extended pkt j.sorted }

unfoldable pub push : JitterBuffer → RtpPacket → JitterBuffer
push j pkt =
    let extended = extend_seq pkt.sequence_number j.next_extended_seq in
    if j.first_packet
    then if is_empty pkt.payload
      then j
      else store (record j { first_packet = false; next_extended_seq = extended }) extended pkt
    else store j extended pkt

-- Milliseconds as nanoseconds.
abbrev pub ms : ℕ → ℕ
ms n = n * 1_000_000

-- `if (!start) start = now;`
abbrev pub started : Option ℕ → ℕ → ℕ
started none now = now
started (some start) now = start

-- The scan for consecutive packets of one timestamp: the packets, the entries behind them and the
-- number that would come next.
unfoldable pub collect : ℕ → ℕ → List Entry → List RtpPacket × List Entry × ℕ
collect next_expected ts [] = ([], [], next_expected)
collect next_expected ts ((k, p) ∷ es) =
    let rest = collect (u32 (next_expected + 1)) ts es in
    if k == next_expected && p.timestamp == ts
    then (p ∷ rest.0, rest.1, rest.2)
    else ([], (k, p) ∷ es, next_expected)

-- Whether the entry behind the frame still belongs to it.
unfoldable pub continues : ℕ → ℕ → List Entry → Bool
continues next_expected ts [] = false
continues next_expected ts ((k, p) ∷ es) = k == next_expected && p.timestamp == ts

unfoldable pub at_end : List Entry → Bool
at_end [] = true
at_end (e ∷ es) = false

-- The removal of a complete frame.
unfoldable pub deliver :
    JitterBuffer → List RtpPacket × List Entry × ℕ → JitterBuffer × List RtpPacket
deliver j (packets, rest, next_expected) =
    (record j { sorted = rest; next_extended_seq = next_expected }, packets)

-- `pop_frame` from the reset of the gap on; `sorted` begins with the expected number, `ts` is the
-- timestamp of its first packet, and `now` is the clock as the video test reads it.
unfoldable pub take_frame : JitterBuffer → ℕ → ℕ → JitterBuffer × List RtpPacket
take_frame j ts now =
    let ready : JitterBuffer = record j { gap_start = none } in
    let frame = collect j.next_extended_seq ts j.sorted in
    if continues frame.2 ts frame.1
    then (ready, [])
    else if j.is_video && at_end frame.1
    then (let start = started j.video_wait_start now in
        if ltb now (start + ms (j.max_delay / 2))
        then (record ready { video_wait_start = some start }, [])
        else deliver (record ready { video_wait_start = some start }) frame)
    else deliver (record ready { video_wait_start = none }) frame

-- `pop_frame` on the entries of `_sorted`; the clock is read at most once for the gap and once for
-- the video test.
unfoldable pub pop_entries : List Entry → JitterBuffer → ℕ → ℕ → JitterBuffer × List RtpPacket
pop_entries [] j gap_now video_now = (record j { sorted = [] }, [])
pop_entries ((extended, p) ∷ es) j gap_now video_now =
    let here : JitterBuffer = record j { sorted = (extended, p) ∷ es } in
    let start = started j.gap_start gap_now in
    let later = pop_entries es j gap_now video_now in
    if ltb j.next_extended_seq extended
    then if leb (start + ms j.max_delay) gap_now
      then take_frame (record here { next_extended_seq = extended; gap_start = none }) p.timestamp
          video_now
      else (record here { gap_start = some start }, [])
    else if ltb extended j.next_extended_seq
    then later
    else take_frame here p.timestamp video_now

unfoldable pub pop_frame : JitterBuffer → ℕ → ℕ → JitterBuffer × List RtpPacket
pop_frame j gap_now video_now = pop_entries j.sorted j gap_now video_now

unfoldable pub reset : JitterBuffer → JitterBuffer
reset j = record j {
  sorted = [];
  next_extended_seq = 0;
  first_packet = true;
  gap_start = none;
  video_wait_start = none;
}
