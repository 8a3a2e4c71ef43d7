-- ===== src/Sdp/Media/Kept.antt =====
-- The handlers of a media section's attributes keep its invariant, and a new section has it.
use asio_rtc.Common.{
  ℕ, Option, some, List, [], ◌∷◌, ◌≡◌, refl, inl, inr, Option-cases, IfSome, IfSome-some, or_else,
  on_result, nothing,
}
use asio_rtc.Sdp.{
  Text, SdpMedia, SdpRtcpFb, SdpMediaType, audio, video, application, text, message, SdpProto,
  Formats, monostate,
}
use asio_rtc.Sdp.Text.{equal, codes}
use asio_rtc.Sdp.Names.{Nceq, parse_sdp_media_type, parse_sdp_direction}
use asio_rtc.Sdp.Attribute.{Patterns}
use asio_rtc.Sdp.Simulcast.{RidPatterns}
use asio_rtc.Sdp.Media.{
  new_media, payload_types, add_format, add_formats, add_feedback, keep_formats, parse_port,
  proto_or_default, media_of, media_from_words,
}
use asio_rtc.Sdp.Media.Attr.{apply_fmtp, apply_other_attr, apply_transport_attr, apply_media_attr}
use asio_rtc.Sdp.Media.Valid.{
  AreConsistent, IsConsistent, add_rtpmap-IsConsistent, add_feedback_keeps, set_params-IsConsistent,
}

-- Every branch of an attribute's handler keeps the invariant, or fails.
abbrev pub Kept : Option SdpMedia → Type 0
Kept o = IfSome IsConsistent o

apply_fmtp-Kept : (m : SdpMedia) (value : Text) → IsConsistent m → Kept (apply_fmtp m value)
unfolding apply_fmtp
apply_fmtp-Kept m value c = search (on_result, IfSome-some, set_params-IsConsistent, c)

feedback_kept :
    (m : SdpMedia)
    → IsConsistent m
    → (fb : SdpRtcpFb) → AreConsistent m.formats m.rtpmaps (add_feedback fb m.rtcp_fbs)
feedback_kept m c fb = record {
  listed = c.listed;
  distinct = c.distinct;
  named = (add_feedback_keeps fb m.rtcp_fbs c.named c.no_repeat).0;
  no_repeat = (add_feedback_keeps fb m.rtcp_fbs c.named c.no_repeat).1;
}

module _ (nceq : Nceq) (patterns : Patterns) (rid_patterns : RidPatterns) where
  other-Kept :
      (m : SdpMedia) (name value : Text)
      → IsConsistent m
      → Kept (apply_other_attr nceq patterns rid_patterns m name value)
  unfolding apply_other_attr
  other-Kept m name value c = elim (Option-cases (parse_sdp_direction nceq name)) [
    | inl e ↦ rw (apply_other_attr, e) (IfSome-some c)
    | inr (d, e) ↦ rw (apply_other_attr, e) (IfSome-some c)
  ]

  transport-Kept :
      (m : SdpMedia) (name value : Text)
      → IsConsistent m
      → Kept (apply_transport_attr nceq patterns rid_patterns m name value)
  unfolding apply_transport_attr
  transport-Kept m name value c =
      or_else (equal name (codes "setup")) _ _ (on_result _ _ (λ x. IfSome-some c)) (
        or_else (equal name (codes "crypto")) _ _ (on_result _ _ (λ x. IfSome-some c)) (
          or_else (equal name (codes "rtcp-mux")) _ _ (IfSome-some c) (
            or_else (equal name (codes "rtcp-mux-only")) _ _ (IfSome-some c) (
              or_else (equal name (codes "rtcp-rsize")) _ _ (IfSome-some c) (
                or_else (equal name (codes "extmap-allow-mixed")) _ _ (IfSome-some c) (
                  or_else (equal name (codes "sctp-port")) _ _ (on_result _ _ (λ x. IfSome-some c))
                    (or_else (equal name (codes "max-message-size")) _ _
                      (on_result _ _ (λ x. IfSome-some c))
                      (or_else (equal name (codes "simulcast")) _ _
                        (on_result _ _ (λ x. IfSome-some c))
                        (or_else (equal name (codes "rid")) _ _ (on_result _ _ (λ x. IfSome-some c))
                          (other-Kept m name value c))))))))))

  pub attr-Kept :
      (m : SdpMedia) (name value : Text)
      → IsConsistent m
      → Kept (apply_media_attr nceq patterns rid_patterns m name value)
  unfolding apply_media_attr
  attr-Kept m name value c =
      or_else (equal name (codes "rtpmap")) _ _
        (on_result _ _ (λ x. IfSome-some (add_rtpmap-IsConsistent x m c)))
        (or_else (equal name (codes "fmtp")) _ _ (apply_fmtp-Kept m value c) (
          or_else (equal name (codes "rtcp-fb")) _ _
            (on_result _ _ (λ x. IfSome-some (feedback_kept m c x)))
            (or_else (equal name (codes "extmap")) _ _ (on_result _ _ (λ x. IfSome-some c)) (
              or_else (equal name (codes "ssrc")) _ _ (on_result _ _ (λ x. IfSome-some c)) (
                or_else (equal name (codes "ssrc-group")) _ _ (on_result _ _ (λ x. IfSome-some c)) (
                  or_else (equal name (codes "rtcp")) _ _ (on_result _ _ (λ x. IfSome-some c)) (
                    or_else (equal name (codes "mid")) _ _ (on_result _ _ (λ x. IfSome-some c)) (
                      or_else (equal name (codes "msid")) _ _ (on_result _ _ (λ x. IfSome-some c)) (
                        or_else (equal name (codes "ice-ufrag")) _ _
                          (on_result _ _ (λ x. IfSome-some c))
                          (or_else (equal name (codes "ice-pwd")) _ _
                            (on_result _ _ (λ x. IfSome-some c))
                            (or_else (equal name (codes "ice-options")) _ _
                              (on_result _ _ (λ x. IfSome-some c))
                              (or_else (equal name (codes "candidate")) _ _ (IfSome-some c) (
                                or_else (equal name (codes "end-of-candidates")) _ _ (IfSome-some c)
                                  (or_else (equal name (codes "fingerprint")) _ _
                                    (on_result _ _ (λ x. IfSome-some c))
                                    (transport-Kept m name value c)))))))))))))))

  -- An attribute leaves a consistent media section consistent, whatever its name and value.
  pub apply_media_attr-IsConsistent :
      (m m' : SdpMedia) (name value : Text)
      → IsConsistent m
      → apply_media_attr nceq patterns rid_patterns m name value ≡ some m'
      → IsConsistent m'
  apply_media_attr-IsConsistent m m' name value c e = (attr-Kept m name value c).holds m' e

-- A new media section has no codec yet.
add_formats_no_types :
    (fs : List Text) (f : Formats) → payload_types f ≡ [] → payload_types (add_formats fs f) ≡ []
unfolding add_formats add_format payload_types
add_formats_no_types [] f e = e
add_formats_no_types (t ∷ fs) f e = add_formats_no_types fs (add_format t f) refl

start_kept :
    (fmts : List Text) (t : SdpMediaType) (port : ℕ) (proto : SdpProto)
    → IsConsistent (keep_formats fmts (new_media t port proto))
unfolding keep_formats payload_types
start_kept fmts application port proto = record {
  listed = add_formats_no_types fmts monostate refl;
  distinct = tt;
  named = tt;
  no_repeat = tt;
}
start_kept fmts audio port proto = record {
  listed = refl;
  distinct = tt;
  named = tt;
  no_repeat = tt;
}
start_kept fmts video port proto = record {
  listed = refl;
  distinct = tt;
  named = tt;
  no_repeat = tt;
}
start_kept fmts text port proto = record {
  listed = refl;
  distinct = tt;
  named = tt;
  no_repeat = tt;
}
start_kept fmts message port proto = record {
  listed = refl;
  distinct = tt;
  named = tt;
  no_repeat = tt;
}

module _ (nceq : Nceq) where
  media_of-Kept : (t p q : Text) (fmts : List Text) → Kept (media_of nceq t p q fmts)
  unfolding media_of
  media_of-Kept t p q fmts = on_result (parse_sdp_media_type nceq t) _ (λ kind.
      on_result (parse_port p) _
        (λ port. IfSome-some (start_kept fmts kind port (proto_or_default nceq q))))

  pub media_from_words-Kept : (ws : List Text) → Kept (media_from_words nceq ws)
  unfolding media_from_words
  media_from_words-Kept [] = nothing
  media_from_words-Kept (a ∷ []) = nothing
  media_from_words-Kept (a ∷ b ∷ []) = nothing
  media_from_words-Kept (a ∷ b ∷ c ∷ fmts) = media_of-Kept a b c fmts
