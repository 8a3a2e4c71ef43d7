-- ===== src/Sdp.antt =====
-- src/sdp.hpp and include/asiortc/session_description.hpp: the session description as data. Text is
-- the list of its bytes. Three fields that src/sdp.cpp neither reads nor writes (ptime, maxptime,
-- framerate) are left out.
pub mod Text
pub mod Number
pub mod Names
pub mod Attribute
pub mod Simulcast
pub mod Print
pub mod Params
pub mod Codec
pub mod Media
pub mod Session
pub mod Direction
use asio_rtc.Common.{ℕ, Bool, Option, List}

abbrev pub Text : Type 0
Text = List ℕ

pub data SdpMediaType : Type 0 where
  audio video application text message : SdpMediaType

pub data SdpProto : Type 0 where
  udp rtp_avp rtp_savp rtp_savpf udp_tls_rtp_savpf dtls_sctp udp_dtls_sctp tcp_dtls_sctp : SdpProto

pub data SdpSetupRole : Type 0 where
  active passive actpass holdconn : SdpSetupRole

pub data SdpRidDirection : Type 0 where
  send recv : SdpRidDirection

pub data SdpDirection : Type 0 where
  inactive sendonly recvonly sendrecv : SdpDirection

pub data SdpBandwidthType : Type 0 where
  ct as_specific tias rs rr : SdpBandwidthType

pub record SdpExtmap : Type 0 where
  pub id : ℕ
  pub direction : Option SdpDirection
  pub uri : Text
  pub attributes : Text

pub record SdpRtcpFb : Type 0 where
  pub payload_type : Option ℕ
  pub kind : Text
  pub subtype : Text

pub record SdpMsid : Type 0 where
  pub stream_id : Text
  pub track_id : Text

pub record SdpMsidSemantic : Type 0 where
  pub semantic : Text
  pub stream_ids : List Text

pub record SdpRtpmap : Type 0 where
  pub payload_type : ℕ
  pub name : Text
  pub clock_rate : ℕ
  pub channels : Option ℕ
  pub params : Text

pub record SdpSsrc : Type 0 where
  pub ssrc : ℕ
  pub attribute : Text
  pub value : Text

pub record SdpSsrcGroup : Type 0 where
  pub semantics : Text
  pub ssrcs : List ℕ

pub record SdpFingerprint : Type 0 where
  pub algorithm : Text
  pub value : Text

pub record SdpRtcp : Type 0 where
  pub nettype : Text
  pub addrtype : Text
  pub addr : Text
  pub port : ℕ

pub record SdpCrypto : Type 0 where
  pub tag : ℕ
  pub suite : Text
  pub key_params : Text
  pub session_params : Text

pub record SdpSimulcastStream : Type 0 where
  pub rid : Text
  pub paused : Bool

-- `sdp_simulcast_layer`
abbrev pub SdpSimulcastLayer : Type 0
SdpSimulcastLayer = List SdpSimulcastStream

pub record SdpSimulcast : Type 0 where
  pub send_layers : List SdpSimulcastLayer
  pub recv_layers : List SdpSimulcastLayer

-- `params` is a map: its entries by rising key.
pub record SdpRid : Type 0 where
  pub id : Text
  pub direction : SdpRidDirection
  pub payload_types : List ℕ
  pub params : List (Text × Text)

-- `std::variant` of the formats.
pub data Formats : Type 0 where
  monostate : Formats
  numbers : List ℕ → Formats
  names : List Text → Formats

pub record SdpMedia : Type 0 where
  pub media_type : SdpMediaType
  pub port : ℕ
  pub proto : SdpProto
  pub mid : Text
  pub direction : SdpDirection
  pub extmaps : List SdpExtmap
  pub ssrcs : List SdpSsrc
  pub ssrc_groups : List SdpSsrcGroup
  pub candidates : List Text
  pub fingerprints : List SdpFingerprint
  pub setup : Option SdpSetupRole
  pub ice_ufrag : Text
  pub ice_pwd : Text
  pub ice_options : List Text
  pub rtcp_mux : Bool
  pub rtcp_mux_only : Bool
  pub rtcp_rsize : Bool
  pub rtcp : Option SdpRtcp
  pub msids : List SdpMsid
  pub cryptos : List SdpCrypto
  pub sctp_port : Option ℕ
  pub max_message_size : Option ℕ
  pub simulcast : SdpSimulcast
  pub rids : List SdpRid
  pub end_of_candidates : Bool
  pub extmap_allow_mixed : Bool
  pub conn_nettype : Text
  pub conn_addrtype : Text
  pub conn_addr : Text
  pub attributes : List (Text × Text)
  pub formats : Formats
  pub rtpmaps : List SdpRtpmap
  pub rtcp_fbs : List SdpRtcpFb

pub record SdpOrigin : Type 0 where
  pub username : Text
  pub session_id : Text
  pub session_version : Text
  pub nettype : Text
  pub addrtype : Text
  pub addr : Text

pub record SdpBandwidth : Type 0 where
  pub kind : SdpBandwidthType
  pub bandwidth : ℕ

pub record SdpGroup : Type 0 where
  pub semantic : Text
  pub items : List Text

pub record SessionDescription : Type 0 where
  pub sdp_type : Text
  pub version : ℕ
  pub origin : SdpOrigin
  pub session_name : Text
  pub uri : Text
  pub email : Text
  pub phone_number : Text
  pub conn_nettype : Text
  pub conn_addrtype : Text
  pub conn_addr : Text
  pub direction : Option SdpDirection
  pub bandwidths : List SdpBandwidth
  pub attributes : List (Text × Text)
  pub groups : List SdpGroup
  pub ice_ufrag : Text
  pub ice_pwd : Text
  pub ice_options : List Text
  pub ice_lite : Bool
  pub fingerprints : List SdpFingerprint
  pub setup : Option SdpSetupRole
  pub extmap_allow_mixed : Bool
  pub msid_semantic : SdpMsidSemantic
  pub candidates : List Text
  pub medias : List SdpMedia
