-- ===== src/Sdp/Media/Attr.antt =====
-- src/sdp.cpp, `apply_media_attr`: what an attribute does to its media section.
use asio_rtc.Common.{true, if◌then◌else◌, Option, none, some, ◌>>=◌, [], ◌∷◌, ◌++◌}
use asio_rtc.Sdp.{Text, SdpMedia}
use asio_rtc.Sdp.Text.{equal, split_first, trim, split_whitespace, codes}
use asio_rtc.Sdp.Number.{parse_uint8, parse_uint16, parse_uint32}
use asio_rtc.Sdp.Names.{Nceq, parse_sdp_direction, parse_setup_role}
use asio_rtc.Sdp.Attribute.{
  parse_rtpmap, parse_rtcpfb, parse_ssrc, parse_ssrc_group, parse_fingerprint, parse_msid,
  non_empty, parse_extmap, Patterns, parse_crypto, parse_rtcp,
}
use asio_rtc.Sdp.Simulcast.{parse_simulcast, RidPatterns, parse_rid}
use asio_rtc.Sdp.Media.{find_rtpmap, add_rtpmap, set_params, add_feedback}

-- The parameters belong to a codec that stands before them.
unfoldable pub apply_fmtp : SdpMedia → Text → Option SdpMedia
apply_fmtp m value = do
  (number, params) ← split_first 32 value
  pt ← parse_uint8 number
  _ ← find_rtpmap pt m.rtpmaps
  some (record m { rtpmaps = set_params pt (trim params) m.rtpmaps })

-- `candidate:{}`
abbrev pub candidate_of : Text → Text
candidate_of value = codes "candidate:" ++ value

module _ (nceq : Nceq) (patterns : Patterns) (rid_patterns : RidPatterns) where
  unfoldable pub apply_other_attr : SdpMedia → Text → Text → Option SdpMedia
  apply_other_attr m name value = elim (parse_sdp_direction nceq name) [
    | some d ↦ some (record m { direction = d })
    | none ↦ some (record m { attributes = m.attributes ++ (name, value) ∷ [] })
  ]

  -- The second half of the chain of tests, from `setup` on.
  unfoldable pub apply_transport_attr : SdpMedia → Text → Text → Option SdpMedia
  apply_transport_attr m name value =
      if equal name (codes "setup")
      then (do role ← parse_setup_role nceq value; some (record m { setup = some role }))
      else if equal name (codes "crypto")
      then (do c ← parse_crypto patterns value; some (record m { cryptos = m.cryptos ++ c ∷ [] }))
      else if equal name (codes "rtcp-mux")
      then some (record m { rtcp_mux = true })
      else if equal name (codes "rtcp-mux-only")
      then some (record m { rtcp_mux_only = true })
      else if equal name (codes "rtcp-rsize")
      then some (record m { rtcp_rsize = true })
      else if equal name (codes "extmap-allow-mixed")
      then some (record m { extmap_allow_mixed = true })
      else if equal name (codes "sctp-port")
      then (do port ← parse_uint16 value; some (record m { sctp_port = some port }))
      else if equal name (codes "max-message-size")
      then (do size ← parse_uint32 value; some (record m { max_message_size = some size }))
      else if equal name (codes "simulcast")
      then (do s ← parse_simulcast value; some (record m { simulcast = s }))
      else if equal name (codes "rid")
      then (do r ← parse_rid rid_patterns value; some (record m { rids = m.rids ++ r ∷ [] }))
      else apply_other_attr m name value

  unfoldable pub apply_media_attr : SdpMedia → Text → Text → Option SdpMedia
  apply_media_attr m name value =
      if equal name (codes "rtpmap")
      then (do r ← parse_rtpmap value; some (add_rtpmap r m))
      else if equal name (codes "fmtp")
      then apply_fmtp m value
      else if equal name (codes "rtcp-fb")
      then (do fb ← parse_rtcpfb value; some (record m { rtcp_fbs = add_feedback fb m.rtcp_fbs }))
      else if equal name (codes "extmap")
      then (do e ← parse_extmap nceq value; some (record m { extmaps = m.extmaps ++ e ∷ [] }))
      else if equal name (codes "ssrc")
      then (do s ← parse_ssrc value; some (record m { ssrcs = m.ssrcs ++ s ∷ [] }))
      else if equal name (codes "ssrc-group")
      then (do
        g ← parse_ssrc_group value
        some (record m { ssrc_groups = m.ssrc_groups ++ g ∷ [] }))
      else if equal name (codes "rtcp")
      then (do r ← parse_rtcp patterns value; some (record m { rtcp = some r }))
      else if equal name (codes "mid")
      then (do mid ← non_empty (trim value); some (record m { mid = mid }))
      else if equal name (codes "msid")
      then (do i ← parse_msid value; some (record m { msids = m.msids ++ i ∷ [] }))
      else if equal name (codes "ice-ufrag")
      then (do ufrag ← non_empty (trim value); some (record m { ice_ufrag = ufrag }))
      else if equal name (codes "ice-pwd")
      then (do pwd ← non_empty (trim value); some (record m { ice_pwd = pwd }))
      else if equal name (codes "ice-options")
      then (do
        opts ← non_empty (trim value)
        some (record m { ice_options = m.ice_options ++ split_whitespace opts }))
      else if equal name (codes "candidate")
      then some (record m { candidates = m.candidates ++ candidate_of value ∷ [] })
      else if equal name (codes "end-of-candidates")
      then some (record m { end_of_candidates = true })
      else if equal name (codes "fingerprint")
      then (do
        f ← parse_fingerprint value
        some (record m { fingerprints = m.fingerprints ++ f ∷ [] }))
      else apply_transport_attr m name value
