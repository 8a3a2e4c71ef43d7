-- ===== src/Sdp/Media/Print.antt =====
-- src/sdp.cpp: a media section as text.
use asio_rtc.Common.{
  ℕ, Bool, true, false, ◌==◌, if◌then◌else◌, Option, none, some, List, [], ◌∷◌, ◌++◌,
}
use asio_rtc.Sdp.{Text, SdpMedia, SdpRtpmap, SdpRtcpFb, SdpSimulcast}
use asio_rtc.Sdp.Text.{is_empty, codes}
use asio_rtc.Sdp.Number.{number_text}
use asio_rtc.Sdp.Names.{media_type_name, proto_name, direction_name, setup_role_name}
use asio_rtc.Sdp.Print.{
  spaced, spaced_numbers, unless_empty, rtpmap_text, rtcp_fb_text, extmap_text, ssrc_text,
  ssrc_group_text, rtcp_text, fingerprint_text, crypto_text, msid_text,
}
use asio_rtc.Sdp.Simulcast.{simulcast_text, rid_text}
use asio_rtc.Sdp.Media.{payload_types, format_names, find_rtpmap}

-- A line ends with `\r\n`.
abbrev pub line : Text → Text
line s = s ++ codes "\r\n"

unfoldable pub each : {A : Type 0} → (A → Text) → List A → Text
each print [] = []
each print (x ∷ xs) = line (print x) ++ each print xs

unfoldable pub line_if : Bool → Text → Text
line_if b s = if b then line s else []

-- `a=name:value`, unless the value is empty.
unfoldable pub value_line : Text → Text → Text
value_line name value = if is_empty value then [] else line (name ++ value)

unfoldable pub option_line : {A : Type 0} → (A → Text) → Option A → Text
option_line print none = []
option_line print (some a) = line (print a)

-- A space between two options.
unfoldable pub joined : List Text → Text
joined [] = []
joined (o ∷ []) = o
joined (o ∷ p ∷ options) = o ++ 32 ∷ joined (p ∷ options)

unfoldable pub ice_options_line : List Text → Text
ice_options_line [] = []
ice_options_line (o ∷ options) = line (codes "a=ice-options:" ++ joined (o ∷ options))

unfoldable pub attribute_text : Text × Text → Text
attribute_text (name, value) = codes "a=" ++ (name ++ unless_empty 58 value)

abbrev pub candidate_text : Text → Text
candidate_text c = codes "a=" ++ c

unfoldable pub connection_line : Text → Text → Text → Text
connection_line nettype addrtype addr =
    if is_empty nettype then [] else line (codes "c=" ++ (nettype ++ (32 ∷ addrtype ++ 32 ∷ addr)))

abbrev numbers_or : List ℕ → List Text → Text
numbers_or [] fmts = spaced fmts
numbers_or (pt ∷ pts) fmts = spaced_numbers (pt ∷ pts)

unfoldable pub media_line : SdpMedia → Text
media_line m = line (
    codes "m="
    ++ (media_type_name m.media_type
        ++ (32 ∷ number_text m.port
            ++ (32 ∷ proto_name m.proto
                ++ numbers_or (payload_types m.formats) (format_names m.formats)))))

-- The feedback for one payload type, and that for all of them.
unfoldable pub fb_lines : ℕ → List SdpRtcpFb → Text
fb_lines pt [] = []
fb_lines pt (fb ∷ fbs) = elim fb.payload_type [
  | none ↦ fb_lines pt fbs
  | some p ↦ line_if (p == pt) (rtcp_fb_text fb) ++ fb_lines pt fbs
]

unfoldable pub wildcard_lines : List SdpRtcpFb → Text
wildcard_lines [] = []
wildcard_lines (fb ∷ fbs) = elim fb.payload_type [
  | none ↦ line (rtcp_fb_text fb) ++ wildcard_lines fbs
  | some p ↦ wildcard_lines fbs
]

unfoldable pub codec_lines : List ℕ → List SdpRtpmap → List SdpRtcpFb → Text
codec_lines [] rtpmaps fbs = []
codec_lines (pt ∷ pts) rtpmaps fbs = elim (find_rtpmap pt rtpmaps) [
  | none ↦ codec_lines pts rtpmaps fbs
  | some r ↦
      line (rtpmap_text r)
      ++ (value_line (codes "a=fmtp:" ++ (number_text pt ++ codes " ")) r.params
          ++ (fb_lines pt fbs ++ codec_lines pts rtpmaps fbs))
]

abbrev has_layers : SdpSimulcast → Bool
has_layers s = elim s.send_layers [
  | layer ∷ layers ↦ true
  | [] ↦ elim s.recv_layers [ layer ∷ layers ↦ true | [] ↦ false ]
]

-- From the m line to the ICE candidates.
unfoldable pub head_lines : SdpMedia → Text
head_lines m =
    media_line m
    ++ (connection_line m.conn_nettype m.conn_addrtype m.conn_addr
        ++ (line (codes "a=" ++ direction_name m.direction)
            ++ (value_line (codes "a=mid:") m.mid
                ++ (each msid_text m.msids
                    ++ (value_line (codes "a=ice-ufrag:") m.ice_ufrag
                        ++ (value_line (codes "a=ice-pwd:") m.ice_pwd
                            ++ (ice_options_line m.ice_options
                                ++ each candidate_text m.candidates)))))))

-- The transport, the extensions and the codecs.
unfoldable pub codec_part : SdpMedia → Text
codec_part m =
    each fingerprint_text m.fingerprints
    ++ (option_line (λ r. codes "a=setup:" ++ setup_role_name r) m.setup
        ++ (line_if m.extmap_allow_mixed (codes "a=extmap-allow-mixed")
            ++ (line_if m.rtcp_mux (codes "a=rtcp-mux")
                ++ (line_if m.rtcp_mux_only (codes "a=rtcp-mux-only")
                    ++ (line_if m.rtcp_rsize (codes "a=rtcp-rsize")
                        ++ (option_line rtcp_text m.rtcp
                            ++ (each extmap_text m.extmaps
                                ++ (codec_lines (payload_types m.formats) m.rtpmaps m.rtcp_fbs
                                    ++ wildcard_lines m.rtcp_fbs))))))))

-- The sources and what is left.
unfoldable pub tail_lines : SdpMedia → Text
tail_lines m =
    each ssrc_text m.ssrcs
    ++ (each ssrc_group_text m.ssrc_groups
        ++ (each crypto_text m.cryptos
            ++ (option_line (λ p. codes "a=sctp-port:" ++ number_text p) m.sctp_port
                ++ (option_line (λ n. codes "a=max-message-size:" ++ number_text n)
                      m.max_message_size
                    ++ (line_if (has_layers m.simulcast) (simulcast_text m.simulcast)
                        ++ (each rid_text m.rids
                            ++ (line_if m.end_of_candidates (codes "a=end-of-candidates")
                                ++ each attribute_text m.attributes)))))))

unfoldable pub media_text : SdpMedia → Text
media_text m = head_lines m ++ (codec_part m ++ tail_lines m)
