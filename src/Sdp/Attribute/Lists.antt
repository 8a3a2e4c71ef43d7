-- ===== src/Sdp/Attribute/Lists.antt =====
-- Further attributes whose printed value is parsed back: extensions, sources, keys and streams.
use asio_rtc.Common.{
  ℕ, ◌^◌, ◌<◌, ◌≡◌, refl, false, Option, none, some, [], ◌∷◌, ◌++◌, All-append, append-nil, arith,
}
use asio_rtc.Sdp.{
  Text, SdpExtmap, SdpSsrc, SdpFingerprint, SdpMsid, SdpDirection, inactive, sendonly, recvonly,
  sendrecv,
}
use asio_rtc.Sdp.Text.{is_empty}
use asio_rtc.Sdp.Text.Laws.{
  Without, split_first-append, split_first-none, IsTrimmed, trim-IsTrimmed, Without-IsWord,
  EndsWell, EndsWell-append, trimmed_ends,
}
use asio_rtc.Sdp.Number.{number_text}
use asio_rtc.Sdp.Number.RoundTrip.{parse_uint-number_text, Without-number_text}
use asio_rtc.Sdp.Names.{Nceq, IsCaseless, direction_name}
use asio_rtc.Sdp.Names.RoundTrip.{parse_sdp_direction-direction_name}
use asio_rtc.Sdp.Attribute.{
  ssrc_attribute, parse_ssrc, parse_fingerprint, parse_msid, non_empty, parse_extmap_id, extmap_uri,
  parse_extmap,
}
use asio_rtc.Sdp.Attribute.RoundTrip.{IsName, IsName-ends, phrase_ends}
use asio_rtc.Sdp.Print.{unless_empty, extmap_direction_text}

-- Header extensions
pub record IsPrintableExtmap (e : SdpExtmap) : Type 0 where
  pub id_fits : e.id < 2 ^ 16
  pub named : IsName e.uri
  pub tidy : IsTrimmed e.attributes

abbrev pub extmap_value : SdpExtmap → Text
extmap_value e =
    (number_text e.id ++ extmap_direction_text e.direction)
    ++ 32 ∷ (e.uri ++ unless_empty 32 e.attributes)

direction_no_space :
    (id : ℕ) (d : Option SdpDirection) → Without 32 (number_text id ++ extmap_direction_text d)
unfolding extmap_direction_text direction_name
direction_no_space id none = rw (append-nil (number_text id)) (Without-number_text 32 id refl)
direction_no_space id (some inactive) =
    All-append _ (number_text id) _ (Without-number_text 32 id refl) (search)
direction_no_space id (some sendonly) =
    All-append _ (number_text id) _ (Without-number_text 32 id refl) (search)
direction_no_space id (some recvonly) =
    All-append _ (number_text id) _ (Without-number_text 32 id refl) (search)
direction_no_space id (some sendrecv) =
    All-append _ (number_text id) _ (Without-number_text 32 id refl) (search)

non_empty-append : (s t : Text) → IsName s → non_empty (s ++ t) ≡ some (s ++ t)
non_empty-append [] t n = ground (arith, n.name_lem)
non_empty-append (c ∷ s) t n = refl

module _ {nceq : Nceq} (ci : IsCaseless nceq) where
  extmap_uri-phrase :
      (id : ℕ) (d : Option SdpDirection) (uri attributes : Text)
      → IsName uri
      → IsTrimmed attributes
      → extmap_uri nceq id d (uri ++ unless_empty 32 attributes)
        ≡ (record { id = id; direction = d; uri = uri; attributes = attributes })
  unfolding extmap_uri
  extmap_uri-phrase id d uri [] n h =
      simp (extmap_uri, append-nil uri, split_first-none 32 uri (Without-IsWord 32 uri refl n.word))
  extmap_uri-phrase id d uri (c ∷ s) n h = simp (
    extmap_uri,
    split_first-append 32 uri (c ∷ s) (Without-IsWord 32 uri refl n.word),
    trim-IsTrimmed (c ∷ s) h,
  )

  parse_extmap_id-value :
      (id : ℕ) (d : Option SdpDirection)
      → id < 2 ^ 16
      → parse_extmap_id nceq (number_text id ++ extmap_direction_text d) ≡ some (id, d)
  unfolding parse_extmap_id extmap_direction_text
  parse_extmap_id-value id none h = simp (
    parse_extmap_id,
    append-nil (number_text id),
    split_first-none 47 (number_text id) (Without-number_text 47 id refl),
    parse_uint-number_text 16 id h,
  )
  parse_extmap_id-value id (some d) h = simp (
    parse_extmap_id,
    split_first-append 47 (number_text id) (direction_name d) (Without-number_text 47 id refl),
    parse_uint-number_text 16 id h,
    parse_sdp_direction-direction_name ci d,
  )

  pub parse_extmap-value :
      (e : SdpExtmap) → IsPrintableExtmap e → parse_extmap nceq (extmap_value e) ≡ some e
  unfolding parse_extmap
  parse_extmap-value e h = simp (
    split_first-append 32 (number_text e.id ++ extmap_direction_text e.direction)
        (e.uri ++ unless_empty 32 e.attributes) (direction_no_space e.id e.direction),
    non_empty-append e.uri (unless_empty 32 e.attributes) h.named,
    parse_extmap_id-value e.id e.direction h.id_fits,
    extmap_uri-phrase e.id e.direction e.uri e.attributes h.named h.tidy,
  )

-- Sources
pub record IsPrintableSsrc (s : SdpSsrc) : Type 0 where
  pub ssrc_fits : s.ssrc < 2 ^ 32
  pub named : IsName s.attribute
  pub no_colon : Without 58 s.attribute
  pub tidy : IsTrimmed s.value

abbrev pub ssrc_value : SdpSsrc → Text
ssrc_value s = number_text s.ssrc ++ 32 ∷ (s.attribute ++ unless_empty 58 s.value)

ssrc_attribute-value :
    (ssrc : ℕ) (attribute v : Text)
    → Without 58 attribute
    → ssrc_attribute ssrc (attribute ++ unless_empty 58 v)
      ≡ (record { ssrc = ssrc; attribute = attribute; value = v })
unfolding ssrc_attribute
ssrc_attribute-value ssrc attribute [] h =
    simp (ssrc_attribute, append-nil attribute, split_first-none 58 attribute h)
ssrc_attribute-value ssrc attribute (c ∷ v) h =
    simp (ssrc_attribute, split_first-append 58 attribute (c ∷ v) h)

pub parse_ssrc-value : (s : SdpSsrc) → IsPrintableSsrc s → parse_ssrc (ssrc_value s) ≡ some s
unfolding parse_ssrc
parse_ssrc-value s h = simp (
  split_first-append 32 (number_text s.ssrc) (s.attribute ++ unless_empty 58 s.value)
      (Without-number_text 32 s.ssrc refl),
  parse_uint-number_text 32 s.ssrc h.ssrc_fits,
  ssrc_attribute-value s.ssrc s.attribute s.value h.no_colon,
)

-- Fingerprints
pub record IsPrintableFingerprint (f : SdpFingerprint) : Type 0 where
  pub named : IsName f.algorithm
  pub given : is_empty f.value ≡ false
  pub tidy : IsTrimmed f.value

abbrev pub fingerprint_value : SdpFingerprint → Text
fingerprint_value f = f.algorithm ++ 32 ∷ f.value

pub parse_fingerprint-value :
    (f : SdpFingerprint)
    → IsPrintableFingerprint f
    → parse_fingerprint (fingerprint_value f) ≡ some f
unfolding parse_fingerprint
parse_fingerprint-value f h = simp (
  split_first-append 32 f.algorithm f.value (Without-IsWord 32 f.algorithm refl h.named.word),
  trim-IsTrimmed f.value h.tidy,
)

-- Streams
pub record IsPrintableMsid (i : SdpMsid) : Type 0 where
  pub named : IsName i.stream_id
  pub tidy : IsTrimmed i.track_id

abbrev pub msid_value : SdpMsid → Text
msid_value i = i.stream_id ++ unless_empty 32 i.track_id

parse_msid-parts :
    (stream track : Text)
    → IsName stream
    → IsTrimmed track
    → parse_msid (stream ++ unless_empty 32 track)
      ≡ some (record { stream_id = stream; track_id = track })
unfolding parse_msid
parse_msid-parts stream [] n h = simp (
  parse_msid,
  append-nil stream,
  split_first-none 32 stream (Without-IsWord 32 stream refl n.word),
)
parse_msid-parts stream (c ∷ s) n h = simp (
  parse_msid,
  split_first-append 32 stream (c ∷ s) (Without-IsWord 32 stream refl n.word),
  trim-IsTrimmed (c ∷ s) h,
)

pub parse_msid-value : (i : SdpMsid) → IsPrintableMsid i → parse_msid (msid_value i) ≡ some i
parse_msid-value i h = parse_msid-parts i.stream_id i.track_id h.named h.tidy

-- No blank stands at the end of a printed value.
pub extmap_value_ends : (e : SdpExtmap) → IsPrintableExtmap e → EndsWell (extmap_value e)
extmap_value_ends e h =
    EndsWell-append (number_text e.id ++ extmap_direction_text e.direction)
      (EndsWell-append (32 ∷ []) (phrase_ends e.uri e.attributes h.named h.tidy))

attribute_ends : (a v : Text) → IsName a → IsTrimmed v → EndsWell (a ++ unless_empty 58 v)
attribute_ends a [] n h = rw (append-nil a) (IsName-ends a n)
attribute_ends a (c ∷ v) n h = EndsWell-append a (EndsWell-append (58 ∷ []) (trimmed_ends c v h))

pub ssrc_value_ends : (s : SdpSsrc) → IsPrintableSsrc s → EndsWell (ssrc_value s)
ssrc_value_ends s h =
    EndsWell-append (number_text s.ssrc)
      (EndsWell-append (32 ∷ []) (attribute_ends s.attribute s.value h.named h.tidy))

pub fingerprint_value_ends :
    (f : SdpFingerprint) → IsPrintableFingerprint f → EndsWell (fingerprint_value f)
fingerprint_value_ends f h =
    EndsWell-append f.algorithm
      (EndsWell-append (32 ∷ []) (record { not_empty = h.given; end_lem = h.tidy.end_lem }))

pub msid_value_ends : (i : SdpMsid) → IsPrintableMsid i → EndsWell (msid_value i)
msid_value_ends i h = phrase_ends i.stream_id i.track_id h.named h.tidy
