-- ===== src/Sdp/Session/Print.antt =====
-- src/sdp.cpp: a session description as text.
use asio_rtc.Common.{List, [], ◌∷◌, ◌++◌}
use asio_rtc.Sdp.{Text, SdpMsidSemantic, SdpMedia, SessionDescription}
use asio_rtc.Sdp.Text.{codes}
use asio_rtc.Sdp.Number.{number_text}
use asio_rtc.Sdp.Names.{direction_name, setup_role_name}
use asio_rtc.Sdp.Print.{
  origin_text, fingerprint_text, group_text, msid_semantic_text, bandwidth_text,
}
use asio_rtc.Sdp.Media.Print.{
  line, each, line_if, value_line, option_line, ice_options_line, attribute_text, candidate_text,
  connection_line, media_text,
}

unfoldable pub semantic_line : SdpMsidSemantic → Text
semantic_line ms = elim ms.stream_ids [ [] ↦ [] | id ∷ ids ↦ line (msid_semantic_text ms) ]

unfoldable pub medias_text : List SdpMedia → Text
medias_text [] = []
medias_text (m ∷ ms) = media_text m ++ medias_text ms

-- The lines in front of the attributes.
unfoldable pub heading_lines : SessionDescription → Text
heading_lines s =
    line (codes "v=" ++ number_text s.version)
    ++ (line (origin_text s.origin)
        ++ (line (codes "s=" ++ s.session_name)
            ++ (value_line (codes "u=") s.uri
                ++ (value_line (codes "e=") s.email
                    ++ (value_line (codes "p=") s.phone_number
                        ++ (connection_line s.conn_nettype s.conn_addrtype s.conn_addr
                            ++ (each bandwidth_text s.bandwidths ++ line (codes "t=0 0"))))))))

unfoldable pub attribute_lines : SessionDescription → Text
attribute_lines s =
    option_line (λ d. codes "a=" ++ direction_name d) s.direction
    ++ (value_line (codes "a=ice-ufrag:") s.ice_ufrag
        ++ (value_line (codes "a=ice-pwd:") s.ice_pwd
            ++ (ice_options_line s.ice_options
                ++ (line_if s.ice_lite (codes "a=ice-lite")
                    ++ (each fingerprint_text s.fingerprints
                        ++ (option_line (λ r. codes "a=setup:" ++ setup_role_name r) s.setup
                            ++ (line_if s.extmap_allow_mixed (codes "a=extmap-allow-mixed")
                                ++ (semantic_line s.msid_semantic
                                    ++ (each group_text s.groups
                                        ++ (each attribute_text s.attributes
                                            ++ each candidate_text s.candidates))))))))))

unfoldable pub session_text : SessionDescription → Text
session_text s = heading_lines s ++ (attribute_lines s ++ medias_text s.medias)
