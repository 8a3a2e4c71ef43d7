-- ===== src/Lib.antt =====
-- Verification of the media path, the negotiation and the MPEG-TS input of asio-rtc, a WebRTC stack
-- in C++.
--
-- A received datagram is taken apart by the RTP or the RTCP parser; the sequence number of an RTP
-- packet goes to the NACK generator of its source, which says what to ask for again, and the packet
-- goes to the jitter buffer of its track, which hands out frames; an H.264 frame is then put
-- together from its packets. On the way out a packetizer cuts a frame into payloads, and the
-- writers turn packets, reports and feedback messages into bytes. The two sides agree on codecs,
-- header extensions and directions by session descriptions, text that is parsed and printed. A
-- transceiver makes its section of an offer or an answer and takes over the other side's; the
-- connection goes through the signalling states, sends and keeps packets, sends them again when it
-- is asked to, and routes received packets to the transceivers. A demuxer makes frames of an
-- MPEG-TS file.
--
-- Common      helpers: lists as vectors and buffers, fixed widths, `|` and `&`, signed distances.
-- Binary      asioice/detail/binary.hpp, which stands in a submodule: the four functions that read
--             and write 16 and 32 bits are a record `Binary` that every parser and writer takes, and
--             `IsBigEndian` says that they use network byte order. `Tests.Fixture.network` has it.
-- Rtp         src/rtp.cpp, include/asiortc/rtp.hpp: `rtp_packet::parse`, `write_to`,
--             `serialized_size` and the three getters.
-- Rtcp        src/rtcp.cpp, src/rtcp.hpp: `rtcp_packet::parse`, `write_to`, `serialized_size`,
--             `is_rtcp_packet`, `get_packet_type` and `parse_compound`.
-- Feedback    the same files: `rtcp_rtpfb::bytes`, `rtcp_psfb::bytes`, `parse_nack`.
-- Remb        the same files: `pack_remb` and `parse_remb`.
-- Nack        src/nack_generator.cpp and .hpp: the ring of recent sequence numbers as a list, with
--             `receive_packet`, `get_nacks` and `update_rtt`.
-- Jitter      src/jitter_buffer.cpp and .hpp: `push`, `pop_frame` and `reset`; the map is a list of
--             entries by rising key.
-- Stats       src/ssrc_context.hpp: the counts and the jitter of a received stream for the reports.
-- Tcc         src/rtcp.cpp: `sdes_chunk::bytes`, `build_transport_cc`, `tcc_build_packet_status`.
-- Twcc        src/twcc.cpp and .hpp: `handle_incoming` and `report`; include/asiortc/rtp.hpp: the
--             walk of `rtp_ext_iterator` over header extensions.
-- H264        src/rtp_packetizer/h264_packetizer.cpp: `find_start_code` and `pack`.
-- Vpx         src/rtp_packetizer/vpx_descriptor.cpp, vpx_packetizer.cpp, opus_packetizer.cpp:
--             `vpx_payload_descriptor::parse` and `bytes`, and the three packetizers.
-- MediaTrack  src/media_track_impl.cpp: `h264_packets_to_annex_b`.
-- Mpegts      src/mpegts_demuxer.hpp: `MPEGTSDemuxer`, from bytes to frames. Mpegts.Sync has `find_sync`
--             and the packet's header, Mpegts.Psi the tables with their checksum, Mpegts.Pes
--             `parse_pes`, Mpegts.Demux `handle_ts_packet`, `flush` and `parse`.
-- Sdp         src/sdp.cpp, src/sdp.hpp, include/asiortc/session_description.hpp: the types of a session
--             description. Sdp.Text and Sdp.Number have the helpers on text, Sdp.Names the names of
--             the enumerations, Sdp.Attribute and Sdp.Simulcast the parsers of attributes, Sdp.Print
--             their printers, Sdp.Params `add_param`, `find_param` and `remove_param`, Sdp.Media
--             `sdp_media`, `parse_media_line`, `apply_media_attr` and `to_string`, Sdp.Session
--             `apply_session_attr`, `do_parse` and `session_description::to_string`, Sdp.Direction
--             `negotiate_direction`, Sdp.Codec `from_media_description` and `is_match`, with the
--             types of include/asiortc/media_track.hpp and media_frame.hpp.
-- Transceiver src/rtp_transceiver.cpp and .hpp, src/rtp_stream.hpp: `to_offer_sdp_media`,
--             `to_answer_sdp_media`, `from_remote_offer`, `from_remote_answer`, `stop` and
--             `create_ssrc_context`; the set of sources is a list by rising number.
-- Connection  src/connection_impl.cpp and .hpp, include/asiortc/peer_connection.hpp. Connection.Send
--             has `make_rtp`, `update_send_stats`, the loop of `_sender_send_loop` over the payloads
--             of a frame and the answer to a NACK of `do_on_rtp_rtcp_packet`; Connection.Route has
--             `build_ssrc_map`, `rewrite_rtx_packet`, `depayload` and `dispatch_rtp`;
--             Connection.Signalling has `set_local_description` and `set_remote_description` up to
--             the first wait of the coroutine.
-- Tests       runs at concrete inputs.
--
-- A class is a record of its members, and a method that changes it returns the record. Byte buffers
-- are lists of natural numbers; a cast to a fixed width is written out as a remainder. A result that
-- stands for failure (-1, an empty optional) is `none`. The clock is an argument: NACK times are
-- milliseconds, jitter buffer times nanoseconds, and where the code reads the clock twice there are
-- two arguments.
--
-- Text is the list of its bytes. `asioice::utils::nceq` stands in a submodule: it is the argument
-- `nceq`, and `IsCaseless` says that it compares without regard to case (`Tests.Text.caseless` does).
-- The matches of the library ctre are the records `Patterns` and `RidPatterns`, of which nothing is
-- assumed. A handler that gives `false`, after which the parser gives up, gives `none`. A position
-- that `find` gives, with the text on both sides of it, is a pair of texts.
--
-- Fuel: `report` has 102 rounds, one more than the packets it may add; `handle_incoming` takes the
-- rounds of its flush loop as an argument, since a late packet makes these many. `pack_remb` halves a
-- bitrate at most 32 times, its width. The demuxer's loops over packets, tables and descriptors and
-- its search for a packet take the number of bytes, and so do the other loops over bytes; every round
-- takes at least one of them, and the round trips are about the functions with that fuel, so they
-- show that it is enough for what the library writes. The loops of the NACK generator and of the
-- jitter buffer are structural, on the rounds that are left and on the entries.
--
-- Not modelled: the coroutines, timers and sockets (the rest of src/connection_impl.cpp,
-- src/srtp_transport.cpp, src/any_stream_track.cpp); create_offer, create_answer and the reports of
-- src/connection_impl.cpp; src/peer_connection.cpp and src/rtp_interfaces.cpp, which forward calls;
-- candidates; data channels; the codecs (ffmpeg) and the examples.
pub mod Common
pub mod Binary
pub mod H264
pub mod Vpx
pub mod Rtp
pub mod Nack
pub mod Rtcp
pub mod Sdp
pub mod Feedback
pub mod Remb
pub mod MediaTrack
pub mod Mpegts
pub mod Transceiver
pub mod Connection
pub mod Jitter
pub mod Stats
pub mod Tcc
pub mod Twcc
mod Tests
