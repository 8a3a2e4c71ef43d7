-- ===== src/Sdp/Print.antt =====
-- src/sdp.cpp: attributes as text. Each function appends to the text that it is given in the source;
-- here it gives what is appended.
use asio_rtc.Common.{ℕ, not, ◌&&◌, if◌then◌else◌, Option, none, some, List, [], ◌∷◌, ◌++◌}
use asio_rtc.Sdp.{
  Text, SdpOrigin, SdpRtpmap, SdpExtmap, SdpRtcpFb, SdpSsrc, SdpSsrcGroup, SdpFingerprint,
  SdpBandwidth, SdpCrypto, SdpRtcp, SdpMsid, SdpMsidSemantic, SdpGroup, SdpDirection,
}
use asio_rtc.Sdp.Text.{is_empty, codes}
use asio_rtc.Sdp.Number.{number_text}
use asio_rtc.Sdp.Names.{direction_name, bandwidth_type_name}

-- A separator and the text behind it, unless that is empty.
abbrev pub unless_empty : ℕ → Text → Text
unless_empty separator s = if is_empty s then [] else separator ∷ s

-- Each item behind a space.
unfoldable pub spaced : List Text → Text
spaced [] = []
spaced (item ∷ items) = 32 ∷ item ++ spaced items

unfoldable pub spaced_numbers : List ℕ → Text
spaced_numbers [] = []
spaced_numbers (n ∷ ns) = 32 ∷ number_text n ++ spaced_numbers ns

unfoldable pub origin_text : SdpOrigin → Text
origin_text o =
    codes "o="
    ++ (o.username
        ++ (32 ∷ o.session_id
            ++ (32 ∷ o.session_version ++ (32 ∷ o.nettype ++ (32 ∷ o.addrtype ++ 32 ∷ o.addr)))))

unfoldable pub channels_text : Option ℕ → Text
channels_text none = []
channels_text (some channels) = 47 ∷ number_text channels

unfoldable pub rtpmap_text : SdpRtpmap → Text
rtpmap_text attr =
    codes "a=rtpmap:"
    ++ (number_text attr.payload_type
        ++ (32 ∷ attr.name ++ (47 ∷ number_text attr.clock_rate ++ channels_text attr.channels)))

unfoldable pub fb_target : Option ℕ → Text
fb_target none = codes "*"
fb_target (some pt) = number_text pt

unfoldable pub rtcp_fb_text : SdpRtcpFb → Text
rtcp_fb_text attr =
    codes "a=rtcp-fb:"
    ++ (fb_target attr.payload_type ++ (32 ∷ attr.kind ++ unless_empty 32 attr.subtype))

unfoldable pub extmap_direction_text : Option SdpDirection → Text
extmap_direction_text none = []
extmap_direction_text (some d) = 47 ∷ direction_name d

unfoldable pub extmap_text : SdpExtmap → Text
extmap_text attr =
    codes "a=extmap:"
    ++ (number_text attr.id
        ++ (extmap_direction_text attr.direction
            ++ (32 ∷ attr.uri ++ unless_empty 32 attr.attributes)))

unfoldable pub ssrc_text : SdpSsrc → Text
ssrc_text attr =
    codes "a=ssrc:"
    ++ (number_text attr.ssrc ++ (32 ∷ attr.attribute ++ unless_empty 58 attr.value))

unfoldable pub ssrc_group_text : SdpSsrcGroup → Text
ssrc_group_text attr = codes "a=ssrc-group:" ++ (attr.semantics ++ spaced_numbers attr.ssrcs)

unfoldable pub rtcp_text : SdpRtcp → Text
rtcp_text attr =
    codes "a=rtcp:"
    ++ (number_text attr.port
        ++ (if not (is_empty attr.nettype)
              && (not (is_empty attr.addrtype) && not (is_empty attr.addr))
            then 32 ∷ attr.nettype ++ (32 ∷ attr.addrtype ++ 32 ∷ attr.addr)
            else []))

unfoldable pub fingerprint_text : SdpFingerprint → Text
fingerprint_text attr = codes "a=fingerprint:" ++ (attr.algorithm ++ 32 ∷ attr.value)

unfoldable pub crypto_text : SdpCrypto → Text
crypto_text attr =
    codes "a=crypto:"
    ++ (number_text attr.tag
        ++ (32 ∷ attr.suite ++ (32 ∷ attr.key_params ++ unless_empty 32 attr.session_params)))

unfoldable pub msid_text : SdpMsid → Text
msid_text attr = codes "a=msid:" ++ (attr.stream_id ++ unless_empty 32 attr.track_id)

unfoldable pub group_text : SdpGroup → Text
group_text attr = codes "a=group:" ++ (attr.semantic ++ spaced attr.items)

unfoldable pub msid_semantic_text : SdpMsidSemantic → Text
msid_semantic_text attr = codes "a=msid-semantic:" ++ (attr.semantic ++ spaced attr.stream_ids)

unfoldable pub bandwidth_text : SdpBandwidth → Text
bandwidth_text b = codes "b=" ++ (bandwidth_type_name b.kind ++ 58 ∷ number_text b.bandwidth)
