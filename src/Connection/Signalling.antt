-- ===== src/Connection/Signalling.antt =====
-- src/connection_impl.cpp: `set_local_description` and `set_remote_description` up to the coroutine's
-- first wait. An exception is `none`; what it leaves half done is not said. The callback for tracks
-- is the list of its calls: the transceiver's index and the identifiers of the streams.
use asio_rtc.Common.{
  ℕ, zero, suc, ◌+◌, Bool, true, false, not, ◌&&◌, ◌||◌, if◌then◌else◌, Option, none, some, ◌>>=◌,
  List, [], ◌∷◌, ◌++◌, map,
}
use asio_rtc.Sdp.{
  Text, SdpMediaType, audio, video, application, inactive, SdpExtmap, SdpMsid, SdpMedia, SdpGroup,
  SessionDescription,
}
use asio_rtc.Sdp.Text.{codes, is_empty, equal}
use asio_rtc.Sdp.Names.{Nceq}
use asio_rtc.Transceiver.{
  RtpTransceiver, stop, uri_mid, is_receiving, is_inactive, is_audio, from_remote_offer,
  from_remote_answer,
}
use asio_rtc.Connection.Route.{Router, build_ssrc_map}

pub data SignalingState : Type 0 where
  stable have_local_offer have_remote_offer have_local_pranswer have_remote_pranswer closed :
      SignalingState

pub record Connection : Type 0 where
  pub signaling_state : SignalingState
  pub local_desc : Option SessionDescription
  pub remote_desc : Option SessionDescription
  pub ice_controlling : Bool
  pub router : Router

-- `switch (_signaling_state.get())`: may the local, and may the remote side describe itself so?
unfoldable pub local_allowed : SignalingState → Text → Bool
local_allowed stable kind = equal kind (codes "offer")
local_allowed closed kind = equal kind (codes "offer")
local_allowed have_remote_offer kind = equal kind (codes "answer")
local_allowed have_local_offer kind = false
local_allowed have_local_pranswer kind = false
local_allowed have_remote_pranswer kind = false

unfoldable pub remote_allowed : SignalingState → Text → Bool
remote_allowed stable kind = equal kind (codes "offer")
remote_allowed closed kind = equal kind (codes "offer")
remote_allowed have_local_offer kind = equal kind (codes "answer")
remote_allowed have_remote_offer kind = false
remote_allowed have_local_pranswer kind = false
remote_allowed have_remote_pranswer kind = false

unfoldable pub is_offer : SessionDescription → Bool
is_offer desc = equal desc.sdp_type (codes "offer")

unfoldable pub nth_media : ℕ → List SdpMedia → Option SdpMedia
nth_media n [] = none
nth_media zero (m ∷ medias) = some m
nth_media (suc n) (m ∷ medias) = nth_media n medias

-- `if (!tr->mid().empty() && tr->mid() != m.mid)`
unfoldable pub mid_agrees : Text → Option SdpMedia → Bool
mid_agrees mid none = false
mid_agrees mid (some m) = is_empty mid || equal mid m.mid

-- The section of a transceiver is there, and has its identifier.
unfoldable pub has_section : List SdpMedia → RtpTransceiver → Bool
has_section medias t = elim t.mline_index [
  | none ↦ true
  | some index ↦ mid_agrees t.mid (nth_media index medias)
]

unfoldable pub have_sections : List SdpMedia → List RtpTransceiver → Bool
have_sections medias [] = true
have_sections medias (t ∷ transceivers) = has_section medias t && have_sections medias transceivers

unfoldable pub mid_from : Option SdpMedia → RtpTransceiver → RtpTransceiver
mid_from none t = t
mid_from (some m) t = if is_empty t.mid then record t { mid = m.mid } else t

unfoldable pub take_mid : List SdpMedia → RtpTransceiver → RtpTransceiver
take_mid medias t = elim t.mline_index [
  | none ↦ t
  | some index ↦ mid_from (nth_media index medias) t
]

unfoldable pub set_local_description : SessionDescription → Connection → Option Connection
set_local_description desc c =
    if not (local_allowed c.signaling_state desc.sdp_type)
    then none
    else if not (is_offer desc)
    then some (record c {
      local_desc = some desc;
      signaling_state = have_local_pranswer;
      ice_controlling = false;
    })
    else if have_sections desc.medias c.router.transceivers
    then some (record c {
      local_desc = some desc;
      signaling_state = have_local_offer;
      ice_controlling = true;
      router = record c.router { transceivers = map (take_mid desc.medias) c.router.transceivers };
    })
    else none

unfoldable pub has_item : Text → List Text → Bool
has_item mid [] = false
has_item mid (i ∷ items) = equal i mid || has_item mid items

unfoldable pub find_group : Text → List SdpGroup → Option SdpGroup
find_group semantic [] = none
find_group semantic (g ∷ groups) =
    if equal g.semantic semantic then some g else find_group semantic groups

unfoldable pub is_application : SdpMediaType → Bool
is_application application = true
is_application _ = false

-- Every data section is in the bundle.
unfoldable pub bundles_data : SdpGroup → List SdpMedia → Bool
bundles_data bundle [] = true
bundles_data bundle (m ∷ medias) =
    (not (is_application m.media_type) || has_item m.mid bundle.items) && bundles_data bundle medias

unfoldable pub find_extmap : Text → List SdpExtmap → Option SdpExtmap
find_extmap uri [] = none
find_extmap uri (e ∷ extmaps) = if equal e.uri uri then some e else find_extmap uri extmaps

-- Whether a section is audio or video, and audio.
unfoldable pub media_kind_of : SdpMediaType → Option Bool
media_kind_of audio = some true
media_kind_of video = some false
media_kind_of _ = none

unfoldable pub replace_nth : ℕ → RtpTransceiver → List RtpTransceiver → List RtpTransceiver
replace_nth n t [] = []
replace_nth zero t (x ∷ transceivers) = t ∷ transceivers
replace_nth (suc n) t (x ∷ transceivers) = x ∷ replace_nth n t transceivers

abbrev pub TrackCall : Type 0
TrackCall = ℕ × List Text

unfoldable pub stream_ids : List SdpMsid → List Text
stream_ids [] = []
stream_ids (m ∷ msids) = m.stream_id ∷ stream_ids msids

abbrev pub same_kind : Bool → Bool → Bool
same_kind true b = b
same_kind false b = not b

module _ (nceq : Nceq) where
  -- The first transceiver of the kind that runs and has no identifier yet.
  unfoldable pub find_free : Bool → ℕ → List RtpTransceiver → Option (ℕ × RtpTransceiver)
  find_free kind index [] = none
  find_free kind index (t ∷ transceivers) =
      if is_empty t.mid && (not t.stopped && same_kind (is_audio nceq t) kind)
      then some (index, t)
      else find_free kind (index + 1) transceivers

  -- A transceiver that receives learns the sources, and the track is announced.
  unfoldable pub open_track : ℕ → SdpMedia → RtpTransceiver → Router → Router × List TrackCall
  open_track index rm t r =
      let (receiver, r') = build_ssrc_map nceq index rm t.receiver r in
      if is_receiving t.direction
      then (
        record r' {
          transceivers = replace_nth index (record t { receiver = receiver }) r'.transceivers;
        },
        (index, stream_ids rm.msids) ∷ [],
      )
      else (r, [])

  unfoldable pub note_mid_ext : SdpMedia → Router → Router
  note_mid_ext rm r = elim (find_extmap uri_mid rm.extmaps) [
    | none ↦ r
    | some e ↦ record r { mid_ext_id = some e.id }
  ]

  -- A section of an offer goes to a free transceiver, if there is one.
  unfoldable pub offer_section : SdpMedia → Bool → Router → Router × List TrackCall
  offer_section rm kind r = elim (find_free kind 0 r.transceivers) [
    | none ↦ (r, [])
    | some (index, t) ↦
        let t' = from_remote_offer nceq rm (record t { mid = rm.mid }) in
        let placed = record r { transceivers = replace_nth index t' r.transceivers } in
        let (r', calls) = open_track index rm t' placed in
        if is_inactive t'.direction then (placed, []) else (note_mid_ext rm r', calls)
  ]

  unfoldable pub offer_sections : List SdpMedia → Router → Option (Router × List TrackCall)
  offer_sections [] r = some (r, [])
  offer_sections (rm ∷ medias) r = elim (media_kind_of rm.media_type) [
    | none ↦ offer_sections medias r
    | some kind ↦
        let (r', calls) = offer_section rm kind r in
        elim (is_empty rm.mid) [
          | true ↦ none
          | false ↦ do (r'', later) ← offer_sections medias r'; some (r'', calls ++ later)
        ]
  ]

  unfoldable pub find_section : Text → List SdpMedia → Option SdpMedia
  find_section mid [] = none
  find_section mid (m ∷ medias) = if equal m.mid mid then some m else find_section mid medias

  -- A transceiver takes its section of an answer; without one it stops.
  unfoldable pub answer_section :
      List SdpMedia → ℕ → RtpTransceiver → Router → Router × List TrackCall
  answer_section medias index t r = elim (find_section t.mid medias) [
    | none ↦ (
      record r {
        transceivers = replace_nth index (stop (record t { direction = inactive })) r.transceivers;
      },
      [],
    )
    | some rm ↦
        let t' = from_remote_answer nceq rm t in
        if is_inactive t'.direction
        then (record r { transceivers = replace_nth index (stop t') r.transceivers }, [])
        else open_track index rm t'
            (record r { transceivers = replace_nth index t' r.transceivers })
  ]

  unfoldable pub answer_sections :
      List SdpMedia → ℕ → List RtpTransceiver → Router → Router × List TrackCall
  answer_sections medias index [] r = (r, [])
  answer_sections medias index (t ∷ transceivers) r =
      let (r', calls) = answer_section medias index t r in
      let (r'', later) = answer_sections medias (index + 1) transceivers r' in (r'', calls ++ later)

  unfoldable pub accept_offer :
      SessionDescription → Connection → Option (Connection × List TrackCall)
  accept_offer desc c = do
    bundle ← find_group (codes "BUNDLE") desc.groups
    if bundles_data bundle desc.medias
        then (do
          (r, calls) ← offer_sections desc.medias c.router
          some (
            record c {
              remote_desc = some desc;
              signaling_state = have_remote_offer;
              ice_controlling = false;
              router = r;
            },
            calls,
          ))
        else none

  unfoldable pub accept_answer : SessionDescription → Connection → Connection × List TrackCall
  accept_answer desc c =
      let (r, calls) = answer_sections desc.medias 0 c.router.transceivers c.router in
      (
        record c {
          remote_desc = some desc;
          signaling_state = have_remote_pranswer;
          ice_controlling = true;
          router = r;
        },
        calls,
      )

  unfoldable pub set_remote_description :
      SessionDescription → Connection → Option (Connection × List TrackCall)
  set_remote_description desc c =
      if not (remote_allowed c.signaling_state desc.sdp_type)
      then none
      else if is_offer desc
      then accept_offer desc c
      else some (accept_answer desc c)
