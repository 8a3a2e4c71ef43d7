-- ===== src/Sdp/Media/Printed.antt =====
-- The attributes of a media section: a printed line and what the parser does with it.
use asio_rtc.Common.{ℕ, ◌^◌, ◌<◌, ◌≡◌, refl, ap, some, [], ◌∷◌, ◌++◌, sym, append_assoc, arith}
use asio_rtc.Sdp.{
  Text, SdpRtpmap, SdpRtcpFb, SdpExtmap, SdpSsrc, SdpFingerprint, SdpMsid, SdpSetupRole, active,
  passive, actpass, holdconn, SdpMedia,
}
use asio_rtc.Sdp.Text.{equal, trim, codes}
use asio_rtc.Sdp.Text.Laws.{Without, trim-IsTrimmed, IsWord-IsTrimmed, EndsWell, word_ends}
use asio_rtc.Sdp.Number.{number_text}
use asio_rtc.Sdp.Number.RoundTrip.{parse_uint-number_text, EndsWell-number_text}
use asio_rtc.Sdp.Names.{Nceq, IsCaseless, setup_role_name}
use asio_rtc.Sdp.Names.RoundTrip.{parse_setup_role-setup_role_name}
use asio_rtc.Sdp.Attribute.{non_empty, Patterns}
use asio_rtc.Sdp.Attribute.RoundTrip.{
  IsName, IsName-ends, IsPrintableRtpmap, rtpmap_value, parse_rtpmap-value, rtpmap_value_ends,
  IsPrintableFb, rtcp_fb_value, parse_rtcpfb-value, rtcp_fb_value_ends,
}
use asio_rtc.Sdp.Attribute.Lists.{
  IsPrintableExtmap, extmap_value, parse_extmap-value, extmap_value_ends, IsPrintableSsrc,
  ssrc_value, parse_ssrc-value, ssrc_value_ends, IsPrintableFingerprint, fingerprint_value,
  parse_fingerprint-value, fingerprint_value_ends, IsPrintableMsid, msid_value, parse_msid-value,
  msid_value_ends,
}
use asio_rtc.Sdp.Print.{
  rtpmap_text, rtcp_fb_text, extmap_text, extmap_direction_text, ssrc_text, fingerprint_text,
  msid_text,
}
use asio_rtc.Sdp.Simulcast.{RidPatterns}
use asio_rtc.Sdp.Media.{add_rtpmap, add_feedback}
use asio_rtc.Sdp.Media.Attr.{apply_media_attr, apply_transport_attr}

-- An attribute that `to_string` of a media section prints.
pub data Attr : Type 0 where
  codec : SdpRtpmap → Attr
  feedback : SdpRtcpFb → Attr
  extension : SdpExtmap → Attr
  source : SdpSsrc → Attr
  certificate : SdpFingerprint → Attr
  stream : SdpMsid → Attr
  role : SdpSetupRole → Attr
  section_name : Text → Attr
  ufrag : Text → Attr
  pwd : Text → Attr
  sctp : ℕ → Attr
  message_size : ℕ → Attr

-- The line that is printed.
abbrev pub attr_text : Attr → Text
attr_text (codec r) = rtpmap_text r
attr_text (feedback fb) = rtcp_fb_text fb
attr_text (extension e) = extmap_text e
attr_text (source s) = ssrc_text s
attr_text (certificate f) = fingerprint_text f
attr_text (stream i) = msid_text i
attr_text (role r) = codes "a=setup:" ++ setup_role_name r
attr_text (section_name s) = codes "a=mid:" ++ s
attr_text (ufrag s) = codes "a=ice-ufrag:" ++ s
attr_text (pwd s) = codes "a=ice-pwd:" ++ s
attr_text (sctp n) = codes "a=sctp-port:" ++ number_text n
attr_text (message_size n) = codes "a=max-message-size:" ++ number_text n

-- Numbers fit their types, names are words, and text behind them has no blank at its ends.
abbrev pub IsPrintable : Attr → Type 0
IsPrintable (codec r) = IsPrintableRtpmap r
IsPrintable (feedback fb) = IsPrintableFb fb
IsPrintable (extension e) = IsPrintableExtmap e
IsPrintable (source s) = IsPrintableSsrc s
IsPrintable (certificate f) = IsPrintableFingerprint f
IsPrintable (stream i) = IsPrintableMsid i
IsPrintable (role r) = Unit
IsPrintable (section_name s) = IsName s
IsPrintable (ufrag s) = IsName s
IsPrintable (pwd s) = IsName s
IsPrintable (sctp n) = n < 2 ^ 16
IsPrintable (message_size n) = n < 2 ^ 32

-- The section with the attribute.
abbrev pub with_attr : Attr → SdpMedia → SdpMedia
with_attr (codec r) m = add_rtpmap r m
with_attr (feedback fb) m = record m { rtcp_fbs = add_feedback fb m.rtcp_fbs }
with_attr (extension e) m = record m { extmaps = m.extmaps ++ e ∷ [] }
with_attr (source s) m = record m { ssrcs = m.ssrcs ++ s ∷ [] }
with_attr (certificate f) m = record m { fingerprints = m.fingerprints ++ f ∷ [] }
with_attr (stream i) m = record m { msids = m.msids ++ i ∷ [] }
with_attr (role r) m = record m { setup = some r }
with_attr (section_name s) m = record m { mid = s }
with_attr (ufrag s) m = record m { ice_ufrag = s }
with_attr (pwd s) m = record m { ice_pwd = s }
with_attr (sctp n) m = record m { sctp_port = some n }
with_attr (message_size n) m = record m { max_message_size = some n }

-- A line `a=name:value`, where the name has no colon and the value no blank at its end, whose value
-- the handler of the name takes in.
pub record IsTaken (nceq : Nceq) (patterns : Patterns) (rid_patterns : RidPatterns) (a : Attr)
    (m : SdpMedia) : Type 0 where
  pub name : Text
  pub value : Text
  pub text_lem : attr_text a ≡ 97 ∷ 61 ∷ (name ++ 58 ∷ value)
  pub no_colon : Without 58 name
  pub ends : EndsWell value
  pub taken : apply_media_attr nceq patterns rid_patterns m name value ≡ some (with_attr a m)

role_ends : (r : SdpSetupRole) → EndsWell (setup_role_name r)
unfolding setup_role_name
role_ends active = word_ends _ _ (search)
role_ends passive = word_ends _ _ (search)
role_ends actpass = word_ends _ _ (search)
role_ends holdconn = word_ends _ _ (search)

non_empty-trim : (s : Text) → IsName s → non_empty (trim s) ≡ some s
non_empty-trim [] n = ground (arith, n.name_lem)
non_empty-trim (c ∷ s) n = rw (trim-IsTrimmed (c ∷ s) (IsWord-IsTrimmed (c ∷ s) n.word)) refl

module _ {nceq : Nceq} (ci : IsCaseless nceq) (patterns : Patterns)
    (rid_patterns : RidPatterns) where
  pub printed-IsTaken :
      (a : Attr) (m : SdpMedia) → IsPrintable a → IsTaken nceq patterns rid_patterns a m
  unfolding apply_media_attr apply_transport_attr equal rtpmap_text rtcp_fb_text extmap_text
      ssrc_text fingerprint_text msid_text
  printed-IsTaken (codec r) m h = record {
    name = codes "rtpmap";
    value = rtpmap_value r;
    text_lem = refl;
    no_colon = search;
    ends = rtpmap_value_ends r;
    taken = rw (parse_rtpmap-value r h) refl;
  }
  printed-IsTaken (feedback fb) m h = record {
    name = codes "rtcp-fb";
    value = rtcp_fb_value fb;
    text_lem = refl;
    no_colon = search;
    ends = rtcp_fb_value_ends fb h;
    taken = rw (parse_rtcpfb-value fb h) refl;
  }
  printed-IsTaken (extension e) m h = record {
    name = codes "extmap";
    value = extmap_value e;
    text_lem =
        ap (λ t. codes "a=extmap:" ++ t)
          (sym (append_assoc (number_text e.id) (extmap_direction_text e.direction) _));
    no_colon = search;
    ends = extmap_value_ends e h;
    taken = rw (parse_extmap-value ci e h) refl;
  }
  printed-IsTaken (source s) m h = record {
    name = codes "ssrc";
    value = ssrc_value s;
    text_lem = refl;
    no_colon = search;
    ends = ssrc_value_ends s h;
    taken = rw (parse_ssrc-value s h) refl;
  }
  printed-IsTaken (certificate f) m h = record {
    name = codes "fingerprint";
    value = fingerprint_value f;
    text_lem = refl;
    no_colon = search;
    ends = fingerprint_value_ends f h;
    taken = rw (parse_fingerprint-value f h) refl;
  }
  printed-IsTaken (stream i) m h = record {
    name = codes "msid";
    value = msid_value i;
    text_lem = refl;
    no_colon = search;
    ends = msid_value_ends i h;
    taken = rw (parse_msid-value i h) refl;
  }
  printed-IsTaken (role r) m h = record {
    name = codes "setup";
    value = setup_role_name r;
    text_lem = refl;
    no_colon = search;
    ends = role_ends r;
    taken = rw (parse_setup_role-setup_role_name ci r) refl;
  }
  printed-IsTaken (section_name s) m h = record {
    name = codes "mid";
    value = s;
    text_lem = refl;
    no_colon = search;
    ends = IsName-ends s h;
    taken = rw (non_empty-trim s h) refl;
  }
  printed-IsTaken (ufrag s) m h = record {
    name = codes "ice-ufrag";
    value = s;
    text_lem = refl;
    no_colon = search;
    ends = IsName-ends s h;
    taken = rw (non_empty-trim s h) refl;
  }
  printed-IsTaken (pwd s) m h = record {
    name = codes "ice-pwd";
    value = s;
    text_lem = refl;
    no_colon = search;
    ends = IsName-ends s h;
    taken = rw (non_empty-trim s h) refl;
  }
  printed-IsTaken (sctp n) m h = record {
    name = codes "sctp-port";
    value = number_text n;
    text_lem = refl;
    no_colon = search;
    ends = EndsWell-number_text n;
    taken = rw (parse_uint-number_text 16 n h) refl;
  }
  printed-IsTaken (message_size n) m h = record {
    name = codes "max-message-size";
    value = number_text n;
    text_lem = refl;
    no_colon = search;
    ends = EndsWell-number_text n;
    taken = rw (parse_uint-number_text 32 n h) refl;
  }
