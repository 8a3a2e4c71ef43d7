-- ===== src/Transceiver/Agree.antt =====
-- Two transceivers that exchange an offer and an answer come to the same result.
use asio_rtc.Common.{
  ℕ, ◌≡◌, refl, sym, ap, ◌∙◌, ◌⊎◌, inl, inr, true, false, ◌||◌, Bool-cases, Option-cases, none,
  some, List, [], ◌∷◌, ◌++◌,
}
use mathlib.Core.Path.{ap₂}
use asio_rtc.Sdp.{Text, SdpDirection, inactive, SdpRtpmap, SdpMedia}
use asio_rtc.Sdp.Text.{codes}
use asio_rtc.Sdp.Names.{Nceq, IsCaseless}
use asio_rtc.Sdp.Media.{find_rtpmap, add_rtpmap}
use asio_rtc.Sdp.Codec.{is_match}
use asio_rtc.Sdp.Direction.{reverse_direction, negotiate_direction}
use asio_rtc.Transceiver.{
  RtpTransceiver, is_inactive, set_base, to_offer_sdp_media, match_offer_rtpmaps, find_codec,
  answer_codec, answer_base, to_answer_sdp_media, from_remote_offer, from_remote_answer,
}
use asio_rtc.Transceiver.Match.{
  negotiate_twice, negotiate_back, negotiate_inactive, inactive_negotiate, is_inactive_lem,
  is_inactive-reverse, is_match_refl, is_match_sym,
}
use asio_rtc.Transceiver.Offered.{
  if_true, if_false, add_rtpmap_direction, add_rtpmap_new, offer_lem, find_codec-offer,
}

module _ (nceq : Nceq) (caseless : IsCaseless nceq) where
  -- Searching with the arguments the other way round, and for another payload type, finds the same.
  match_offer_rtpmaps-find_codec :
      (codec : SdpRtpmap) (pt : ℕ) (rtpmaps : List SdpRtpmap)
      → match_offer_rtpmaps nceq (record codec { payload_type = pt }) rtpmaps
        ≡ find_codec nceq codec rtpmaps
  unfolding match_offer_rtpmaps find_codec
  match_offer_rtpmaps-find_codec codec pt [] = refl
  match_offer_rtpmaps-find_codec codec pt (c ∷ rtpmaps) =
      let same : is_match nceq (record codec { payload_type = pt }) c ≡ is_match nceq c codec =
        (unfold is_match in is_match_sym nceq caseless codec c) in
      rw (same, match_offer_rtpmaps-find_codec codec pt rtpmaps) refl

  answer_codec_direction :
      (codec : SdpRtpmap) (rtpmaps : List SdpRtpmap) (m : SdpMedia)
      → (answer_codec nceq codec rtpmaps m).direction ≡ m.direction
  unfolding answer_codec
  answer_codec_direction codec rtpmaps m =
      elim (Option-cases (match_offer_rtpmaps nceq codec rtpmaps)) [
        | inr (c, e) ↦ rw (answer_codec, e) (add_rtpmap_direction c m)
        | inl e ↦ rw (answer_codec, e) (first rtpmaps)
      ]
    where
      first :
          (l : List SdpRtpmap)
          → (elim l as (λ l. SdpMedia) [ [] ↦ m | c ∷ rest ↦ add_rtpmap c m ]).direction
            ≡ m.direction
      first [] = refl
      first (c ∷ rest) = add_rtpmap_direction c m

  answer_codec_found :
      (codec c : SdpRtpmap) (rtpmaps : List SdpRtpmap) (m : SdpMedia)
      → match_offer_rtpmaps nceq codec rtpmaps ≡ some c
      → m.rtpmaps ≡ []
      → (answer_codec nceq codec rtpmaps m).rtpmaps ≡ c ∷ []
  unfolding answer_codec
  answer_codec_found codec c rtpmaps m e none_yet =
      let new : find_rtpmap c.payload_type m.rtpmaps ≡ none =
        ap (λ l. find_rtpmap c.payload_type l) none_yet ∙ unfold find_rtpmap in refl in
      rw (answer_codec, e) ((add_rtpmap_new c m new).0 ∙ ap (λ l. l ++ c ∷ []) none_yet)

  answer_base_lem :
      (remote : SdpMedia) (direction : SdpDirection) (t : RtpTransceiver)
      → (answer_base nceq remote direction t).direction ≡ direction
  unfolding answer_base set_base
  answer_base_lem remote direction t = answer_codec_direction t.codec remote.rtpmaps _

  -- The direction of an answer, and its codec if one is found.
  answer_direction :
      (remote : SdpMedia) (t : RtpTransceiver)
      → t.stopped ≡ false
      → (to_answer_sdp_media nceq remote t).direction
        ≡ negotiate_direction t.direction remote.direction
  unfolding to_answer_sdp_media
  answer_direction remote t running =
      let direction = negotiate_direction t.direction remote.direction in
      elim (Bool-cases (is_inactive direction)) [
        | inl e ↦
            ap (λ (m : SdpMedia). m.direction) (if_true _ _ (ap₂ (λ a b. a || b) running e))
            ∙ sym (is_inactive_lem direction e)
        | inr e ↦
            ap (λ (m : SdpMedia). m.direction) (if_false _ _ (ap₂ (λ a b. a || b) running e))
            ∙ answer_base_lem remote direction t
      ]

  answer_rtpmaps :
      (remote : SdpMedia) (t : RtpTransceiver) (c : SdpRtpmap)
      → match_offer_rtpmaps nceq t.codec remote.rtpmaps ≡ some c
      → (to_answer_sdp_media nceq remote t).rtpmaps ≡ c ∷ []
  unfolding to_answer_sdp_media answer_base set_base
  answer_rtpmaps remote t c e =
      let direction = negotiate_direction t.direction remote.direction in
      elim (Bool-cases (t.stopped || is_inactive direction)) [
        | inl b ↦
            ap (λ (m : SdpMedia). m.rtpmaps) (if_true _ _ b)
            ∙ answer_codec_found t.codec c remote.rtpmaps _ e refl
        | inr b ↦
            ap (λ (m : SdpMedia). m.rtpmaps) (if_false _ _ b)
            ∙ answer_codec_found t.codec c remote.rtpmaps _ e refl
      ]

  -- What a transceiver becomes by an offer: inactive, or it takes the direction and the payload type.
  took_offer :
      (mid : Text) (a b : RtpTransceiver)
      → a.stopped ≡ false
      → nceq b.codec.name (codes "rtx") ≡ false
      → let m = to_offer_sdp_media nceq mid a in
        let b' = from_remote_offer nceq m b in
        (b'.stopped ≡ b.stopped)
        × ((b'.direction ≡ inactive)
            ⊎ ((b'.direction ≡ negotiate_direction b.direction m.direction)
                × (is_inactive (negotiate_direction b.direction m.direction) ≡ false)
                × (b'.codec ≡ record b.codec { payload_type = a.codec.payload_type })
                × (match_offer_rtpmaps nceq b'.codec m.rtpmaps ≡ some a.codec)
                × (is_match nceq a.codec b.codec ≡ true)))
  unfolding from_remote_offer
  took_offer mid a b running h =
      let m = to_offer_sdp_media nceq mid a in
      let direction = negotiate_direction b.direction m.direction in
      elim (Bool-cases (is_inactive direction)) [
        | inl e ↦ rw (from_remote_offer, e) (refl, inl (is_inactive_lem direction e))
        | inr e ↦ elim (find_codec-offer nceq caseless b.codec mid a running h) [
          | inl n ↦ rw (from_remote_offer, e, n) (refl, inl refl)
          | inr (f, y) ↦
              rw (from_remote_offer, e, f)
                (
                  refl,
                  inr (
                    refl,
                    refl,
                    refl,
                    (match_offer_rtpmaps-find_codec b.codec a.codec.payload_type m.rtpmaps ∙ f),
                    y,
                  ),
                )
        ]
      ]

  took_inactive :
      (remote : SdpMedia) (t : RtpTransceiver)
      → remote.direction ≡ inactive
      → (from_remote_answer nceq remote t).direction ≡ inactive
  unfolding from_remote_answer
  took_inactive remote t h =
      let e : negotiate_direction t.direction remote.direction ≡ inactive =
        ap (λ d. negotiate_direction t.direction d) h ∙ negotiate_inactive t.direction in
      let i : is_inactive (negotiate_direction t.direction remote.direction) ≡ true =
        ap is_inactive e ∙ (unfold is_inactive in refl) in
      rw (from_remote_answer, i) e

  took_answer :
      (remote : SdpMedia) (t : RtpTransceiver)
      → is_inactive (negotiate_direction t.direction remote.direction) ≡ false
      → remote.rtpmaps ≡ t.codec ∷ []
      → ((from_remote_answer nceq remote t).direction
          ≡ negotiate_direction t.direction remote.direction)
        × ((from_remote_answer nceq remote t).codec ≡ t.codec)
  unfolding from_remote_answer
  took_answer remote t i one =
      let f : find_codec nceq t.codec remote.rtpmaps ≡ some t.codec =
        ap (λ l. find_codec nceq t.codec l) one
        ∙ (unfold find_codec in if_true _ _ (is_match_refl nceq caseless t.codec)) in
      rw (from_remote_answer, i, f) (refl, refl)

  -- Two transceivers that run exchange an offer and an answer. Then either both are inactive, or the
  -- directions are each other's reverse, both have the offering side's payload type, and the codecs
  -- are the same. The answering side's codec is not the one for packets sent again.
  pub negotiation_agrees :
      (mid : Text) (a b : RtpTransceiver)
      → a.stopped ≡ false
      → b.stopped ≡ false
      → nceq b.codec.name (codes "rtx") ≡ false
      → let m = to_offer_sdp_media nceq mid a in
        let b' = from_remote_offer nceq m b in
        let a' = from_remote_answer nceq (to_answer_sdp_media nceq m b') a in
        ((a'.direction ≡ inactive) × (b'.direction ≡ inactive))
        ⊎ ((a'.direction ≡ reverse_direction b'.direction)
            × (b'.codec.payload_type ≡ a'.codec.payload_type)
            × (is_match nceq a'.codec b'.codec ≡ true))
  negotiation_agrees mid a b running running' h =
      let m = to_offer_sdp_media nceq mid a in
      let b' = from_remote_offer nceq m b in
      let answer = to_answer_sdp_media nceq m b' in
      let took = took_offer mid a b running h in
      let answered : answer.direction ≡ negotiate_direction b'.direction m.direction =
        answer_direction m b' (took.0 ∙ running') in
      let offered : m.direction ≡ a.direction = (offer_lem nceq caseless mid a running).1 in
      elim took.1 [
        | inl idle ↦
            let none_left : answer.direction ≡ inactive =
              answered
              ∙ ap (λ d. negotiate_direction d m.direction) idle
              ∙ inactive_negotiate m.direction in
            inl (took_inactive answer a none_left, idle)
        | inr (d, i, c, f, y) ↦
            let agreed = negotiate_direction b.direction m.direction in
            let same : answer.direction ≡ agreed =
              answered
              ∙ ap (λ d. negotiate_direction d m.direction) d
              ∙ negotiate_twice b.direction m.direction in
            let back : negotiate_direction a.direction answer.direction ≡ reverse_direction agreed =
              ap₂ negotiate_direction (sym offered) same ∙ negotiate_back m.direction b.direction in
            let busy : is_inactive (negotiate_direction a.direction answer.direction) ≡ false =
              ap is_inactive back ∙ is_inactive-reverse agreed ∙ i in
            let taken = took_answer answer a busy (answer_rtpmaps m b' a.codec f) in
            inr (
              taken.0 ∙ back ∙ ap reverse_direction (sym d),
              ap (λ (r : SdpRtpmap). r.payload_type) c
                  ∙ ap (λ (r : SdpRtpmap). r.payload_type) (sym taken.1),
              ap₂ (λ (x y : SdpRtpmap). is_match nceq x y) taken.1 c ∙ (unfold is_match in y),
            )
      ]
