-- ===== src/Tests/Mpegts.antt =====
-- src/mpegts_demuxer.hpp at concrete inputs.
use asio_rtc.Common.{
  ℕ, ◌+◌, ◌^◌, ◌≡◌, refl, true, false, Option, none, some, IfSome, List, [], ◌∷◌, ◌++◌, replicate,
  arith,
}
use asio_rtc.Sdp.Codec.{unknown}
use asio_rtc.Mpegts.{
  MediaFrame, video, ProgramInfo, Demuxer, new_stream, new_demuxer, push_frame, find_stream,
}
use asio_rtc.Mpegts.Sync.{packet_pid, find_sync_byte, find_sync}
use asio_rtc.Mpegts.Psi.{
  handle_psi_section, parse_psi, calculate_crc32, crc_loop, crc_bits, received_crc, parse_pmt,
  pmt_loop, psi_of, descriptors,
}
use asio_rtc.Mpegts.Pes.{stream_kind, parse_pes}
use asio_rtc.Mpegts.Demux.{is_pmt_pid, handle_ts_packet, parse_ts}
use asio_rtc.Mpegts.Lengths.{IsFind, find_sync-IsFind}
use asio_rtc.Mpegts.Bounded.{IsBounded}
use asio_rtc.Mpegts.Bounded.Demux.{parse_ts-IsBounded}
use asio_rtc.Mpegts.Sections.{checked, crc_bytes, pat_body, entries, entry_bytes}
use asio_rtc.Mpegts.Tables.{Gives, parse_psi-pat}
use asio_rtc.Mpegts.Frames.{pes_start, continue_all, join, parse_pes_frame}
use asio_rtc.Mpegts.Descriptors.{IsDefined, descriptors_inside}
use asio_rtc.Mpegts.Repeated.{handle_ts_packet_twice}

-- A program map with one stream, whose descriptors reach behind the section.
abbrev overlong : List ℕ
overlong = checked (
    2 ∷ 0xb0 ∷ 18 ∷ 0 ∷ 1 ∷ 0xc1 ∷ 0 ∷ 0 ∷ 0xe1 ∷ 0 ∷ 0xf0 ∷ 0 ∷ 0x1b ∷ 0xe1 ∷ 0 ∷ 0xff ∷ 0xff ∷ [])

overlong_behind : handle_psi_section overlong 21 new_demuxer ≡ none
unfolding handle_psi_section new_demuxer checked calculate_crc32 crc_loop crc_bits received_crc
    crc_bytes parse_pmt pmt_loop descriptors
overlong_behind = refl

-- A byte like the synchronisation byte, 188 bytes in front of none: the packet behind it is skipped
-- with it, here all but one byte of the input.
abbrev after_noise : List ℕ
after_noise = 0x47 ∷ 1 ∷ 0x47 ∷ replicate 187 0

after_noise_skipped : find_sync 200 after_noise 0 ≡ (false, 0 ∷ [], 0)
unfolding find_sync find_sync_byte
after_noise_skipped = refl

find_sync-IsFind_example : IsFind after_noise 0 (find_sync 200 after_noise 0)
find_sync-IsFind_example = find_sync-IsFind 200 after_noise 0 (omega arith) (omega arith)

empty-IsBounded : IsBounded new_demuxer
unfolding new_demuxer
empty-IsBounded = record {
  small = record { kept_input = refl; queue = omega arith; programs = omega arith; streams = tt };
  short = omega arith;
  offset = refl;
}

parse_ts-IsBounded_example :
    IfSome
      (λ (r : Option MediaFrame × ℕ × Demuxer). IsBounded r.2)
      (parse_ts after_noise new_demuxer)
parse_ts-IsBounded_example = parse_ts-IsBounded after_noise new_demuxer empty-IsBounded

abbrev two_programs : List ProgramInfo
two_programs = record { number = 1; pmt_pid = 0x100 } ∷ record { number = 2; pmt_pid = 0x1000 } ∷ []

parse_psi-pat_example :
    Gives two_programs [] (
      parse_psi
        (0 ∷ (checked (pat_body 0xc1 two_programs) ++ replicate 10 0xff))
        true
        0
        new_demuxer)
unfolding new_demuxer pat_body entries entry_bytes psi_of find_stream
parse_psi-pat_example =
    parse_psi-pat 0xc1 two_programs 10 0 new_demuxer (omega arith) (omega arith) (omega arith)
      (omega arith)

parse_pes_frame_example :
    (parse_pes
      (pes_start 0xe0 9000 [] (5 ∷ []))
      true
      (continue_all
        ((3 ∷ []) ∷ (4 ∷ []) ∷ [])
        (parse_pes (pes_start 0xe0 (2 ^ 32 + 6000) (0xff ∷ []) (1 ∷ 2 ∷ [])) true new_stream []).0)
      []).1
    ≡ push_frame
        (record { kind = video; format = unknown; timestamp = 6000; content = 1 ∷ 2 ∷ 3 ∷ 4 ∷ [] })
        []
unfolding join stream_kind
parse_pes_frame_example =
    parse_pes_frame 0xe0 (2 ^ 32 + 6000) (0xff ∷ []) (1 ∷ 2 ∷ []) ((3 ∷ []) ∷ (4 ∷ []) ∷ [])
      new_stream [] [] 9000 [] (5 ∷ []) (omega arith) refl (omega arith) (omega arith)

descriptors_inside_example :
    IsDefined (descriptors 6 6 (0x05 ∷ 4 ∷ b'O' ∷ b'p' ∷ b'u' ∷ b's' ∷ []) (unknown, video))
descriptors_inside_example =
    descriptors_inside 6 6 (0x05 ∷ 4 ∷ b'O' ∷ b'p' ∷ b'u' ∷ b's' ∷ []) (unknown, video)
      (omega arith)

abbrev one_stream : Demuxer
one_stream = record {
  buffer = [];
  read_offset = 0;
  programs = [];
  streams = (0x100, new_stream) ∷ [];
  frame_queue = [];
}

abbrev a_packet : List ℕ
a_packet = 0x47 ∷ 0x41 ∷ 0 ∷ 0x17 ∷ (0 ∷ 0 ∷ 1 ∷ 0xe0 ∷ replicate 180 0)

handle_ts_packet_twice_example :
    (d : Demuxer) × (handle_ts_packet a_packet one_stream ≡ some d)
    × (handle_ts_packet a_packet d ≡ some d)
unfolding find_stream packet_pid is_pmt_pid
handle_ts_packet_twice_example =
    handle_ts_packet_twice a_packet one_stream new_stream refl refl refl
