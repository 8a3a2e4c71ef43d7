-- ===== src/Mpegts.antt =====
-- src/mpegts_demuxer.hpp: the members of `MPEGTSDemuxer`, and its stream table. `std::map` is a list
-- by rising key. The children have the operations: Sync finds the packets, Psi reads the tables, Pes
-- puts the elementary streams together, Demux is `handle_ts_packet`, `flush` and `parse`.
pub mod Sync
pub mod Psi
pub mod Pes
pub mod Demux
pub mod Sections
pub mod Tables
pub mod Bounded
pub mod Lengths
pub mod Stamp
pub mod Frames
pub mod Repeated
pub mod Descriptors
use asio_rtc.Common.{
  ℕ, suc, ◌+◌, ◌*◌, Bool, true, false, ltb, leb, ◌==◌, if◌then◌else◌, Option, none, some, List, [],
  ◌∷◌, ◌++◌, length,
}
use asio_rtc.Sdp.Codec.{MediaFormat, unknown}

pub data MediaKind : Type 0 where
  audio video : MediaKind

-- Of the members of `media_frame` those that the demuxer sets; `content` is `data`.
pub record MediaFrame : Type 0 where
  pub kind : MediaKind
  pub format : MediaFormat
  pub timestamp : ℕ
  pub content : List ℕ

pub record StreamState : Type 0 where
  pub format : MediaFormat
  pub kind : MediaKind
  pub pes_buffer : List ℕ
  pub current_pts : ℕ
  pub has_pts : Bool
  pub continuity_counter : ℕ
  pub first_cc : Bool
  pub psi_section : List ℕ

pub record ProgramInfo : Type 0 where
  pub number : ℕ
  pub pmt_pid : ℕ

-- `programs` are the first `program_count_` entries of the array.
pub record Demuxer : Type 0 where
  pub buffer : List ℕ
  pub read_offset : ℕ
  pub programs : List ProgramInfo
  pub streams : List (ℕ × StreamState)
  pub frame_queue : List MediaFrame

abbrev pub ts_packet_size : ℕ
ts_packet_size = 188

abbrev pub max_pes_buffer : ℕ
max_pes_buffer = 4 * 1024 * 1024

abbrev pub max_frame_queue : ℕ
max_frame_queue = 64

abbrev pub max_psi_section : ℕ
max_psi_section = 4096

abbrev pub max_programs : ℕ
max_programs = 5

-- A value-initialised `stream_state`, as `operator[]` makes it.
abbrev pub new_stream : StreamState
new_stream = record {
  format = unknown;
  kind = video;
  pes_buffer = [];
  current_pts = 0;
  has_pts = false;
  continuity_counter = 0;
  first_cc = true;
  psi_section = [];
}

unfoldable pub find_stream : ℕ → List (ℕ × StreamState) → Option StreamState
find_stream pid [] = none
find_stream pid ((key, st) ∷ streams) = if key == pid then some st else find_stream pid streams

-- `streams_[pid] = f(streams_[pid])`; a missing key is put in with a new stream.
unfoldable pub update_stream :
    (StreamState → StreamState) → ℕ → List (ℕ × StreamState) → List (ℕ × StreamState)
update_stream f pid [] = (pid, f new_stream) ∷ []
update_stream f pid ((key, st) ∷ streams) =
    if key == pid
    then (key, f st) ∷ streams
    else if ltb key pid
    then (key, st) ∷ update_stream f pid streams
    else (pid, f new_stream) ∷ (key, st) ∷ streams

unfoldable pub erase_stream : ℕ → List (ℕ × StreamState) → List (ℕ × StreamState)
erase_stream pid [] = []
erase_stream pid ((key, st) ∷ streams) =
    if key == pid then streams else (key, st) ∷ erase_stream pid streams

-- The loop of `push_frame`, which drops the oldest frames of a full queue.
unfoldable pub make_room : List MediaFrame → List MediaFrame
make_room [] = []
make_room (f ∷ queue) =
    if leb max_frame_queue (suc (length queue)) then make_room queue else f ∷ queue

unfoldable pub push_frame : MediaFrame → List MediaFrame → List MediaFrame
push_frame f queue = make_room queue ++ f ∷ []

-- A demuxer without input.
unfoldable pub new_demuxer : Demuxer
new_demuxer = record { buffer = []; read_offset = 0; programs = []; streams = []; frame_queue = [] }
