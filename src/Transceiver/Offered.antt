-- ===== src/Transceiver/Offered.antt =====
-- What an offer says: its codecs and its direction.
use asio_rtc.Common.{
  ◌≡◌, refl, ap, ◌∙◌, ◌⊎◌, inl, inr, Bool, true, false, ◌==◌, if◌then◌else◌, Bool-cases,
  Option-cases, none, some, [], ◌∷◌, ◌++◌, arith,
}
use asio_rtc.Sdp.{Text, SdpRtpmap, SdpMedia}
use asio_rtc.Sdp.Text.{codes}
use asio_rtc.Sdp.Names.{Nceq, IsCaseless}
use asio_rtc.Sdp.Media.{find_rtpmap, add_rtpmap}
use asio_rtc.Sdp.Codec.{is_match}
use asio_rtc.Transceiver.{
  RtpTransceiver, rtx_rtpmap, offer_video, offer_audio, is_sending, set_base, is_audio, offer_base,
  offer_codec, offer_sending, offer_msids, to_offer_sdp_media, find_codec,
}
use asio_rtc.Transceiver.Match.{nceq_sym}

pub if_true {ℓ} : {A : Type ℓ} {b : Bool} (x y : A) → b ≡ true → (if b then x else y) ≡ x
if_true x y h = rw h refl

pub if_false {ℓ} : {A : Type ℓ} {b : Bool} (x y : A) → b ≡ false → (if b then x else y) ≡ y
if_false x y h = rw h refl

pub add_rtpmap_direction : (r : SdpRtpmap) (m : SdpMedia) → (add_rtpmap r m).direction ≡ m.direction
unfolding add_rtpmap
add_rtpmap_direction r m = elim (Option-cases (find_rtpmap r.payload_type m.rtpmaps)) [
  | inl e ↦ rw (add_rtpmap, e) refl
  | inr (old, e) ↦ rw (add_rtpmap, e) refl
]

-- Adding a codec for a new payload type.
pub add_rtpmap_new :
    (r : SdpRtpmap) (m : SdpMedia)
    → find_rtpmap r.payload_type m.rtpmaps ≡ none
    → ((add_rtpmap r m).rtpmaps ≡ m.rtpmaps ++ r ∷ []) × ((add_rtpmap r m).direction ≡ m.direction)
unfolding add_rtpmap
add_rtpmap_new r m h = rw (add_rtpmap, h) (refl, refl)

module _ (nceq : Nceq) (caseless : IsCaseless nceq) where
  offer_sending_kept :
      (t : RtpTransceiver) (m : SdpMedia)
      → ((offer_sending nceq t m).rtpmaps ≡ m.rtpmaps)
        × ((offer_sending nceq t m).direction ≡ m.direction)
  unfolding offer_sending
  offer_sending_kept t m = elim (Bool-cases (is_sending t.direction)) [
    | inl s ↦ rw (offer_sending, s) (refl, refl)
    | inr s ↦ rw (offer_sending, s) (refl, refl)
  ]

  -- The codecs of an offer: the transceiver's, and for video the one for packets sent again.
  offer_codec_kept :
      (t : RtpTransceiver) (m : SdpMedia)
      → m.rtpmaps ≡ t.codec ∷ []
      → (((offer_codec nceq t m).rtpmaps ≡ t.codec ∷ [])
          ⊎ ((offer_codec nceq t m).rtpmaps ≡ t.codec ∷ rtx_rtpmap t.codec ∷ []))
        × ((offer_codec nceq t m).direction ≡ m.direction)
  unfolding offer_codec offer_video offer_audio
  offer_codec_kept t m one =
      let other : t.codec.payload_type == (rtx_rtpmap t.codec).payload_type ≡ false =
        unfold rtx_rtpmap in ground arith in
      let new : find_rtpmap (rtx_rtpmap t.codec).payload_type m.rtpmaps ≡ none =
        ap (λ l. find_rtpmap (rtx_rtpmap t.codec).payload_type l) one
        ∙ unfold find_rtpmap in if_false (some t.codec) none other in
      let added = add_rtpmap_new (rtx_rtpmap t.codec) m new in
      elim (Bool-cases (is_audio nceq t)) [
        | inl e ↦ rw (offer_codec, e) (inl one, refl)
        | inr e ↦
            rw (offer_codec, e)
              (inr (added.0 ∙ ap (λ l. l ++ rtx_rtpmap t.codec ∷ []) one), added.1)
      ]

  pub offer_lem :
      (mid : Text) (t : RtpTransceiver)
      → t.stopped ≡ false
      → (((to_offer_sdp_media nceq mid t).rtpmaps ≡ t.codec ∷ [])
          ⊎ ((to_offer_sdp_media nceq mid t).rtpmaps ≡ t.codec ∷ rtx_rtpmap t.codec ∷ []))
        × ((to_offer_sdp_media nceq mid t).direction ≡ t.direction)
  unfolding to_offer_sdp_media
  offer_lem mid t running =
      let offered = record (offer_base nceq mid t) {
        direction = t.direction;
        msids = offer_msids t.sender;
      } in
      let described = offer_codec nceq t offered in
      let e : to_offer_sdp_media nceq mid t ≡ offer_sending nceq t described =
        if_false _ _ running in
      let one : offered.rtpmaps ≡ t.codec ∷ [] =
        unfold offer_base add_rtpmap set_base find_rtpmap in refl in
      let step = offer_codec_kept t offered one in
      let kept = offer_sending_kept t described in
      (
        elim step.0 [
          | inl a ↦ inl (ap (λ (m : SdpMedia). m.rtpmaps) e ∙ kept.0 ∙ a)
          | inr a ↦ inr (ap (λ (m : SdpMedia). m.rtpmaps) e ∙ kept.0 ∙ a)
        ],
        ap (λ (m : SdpMedia). m.direction) e ∙ kept.1 ∙ step.1,
      )

  rtx_no_match :
      (a b : SdpRtpmap) → nceq b.name (codes "rtx") ≡ false → is_match nceq (rtx_rtpmap a) b ≡ false
  unfolding is_match rtx_rtpmap
  rtx_no_match a b h = rw (nceq_sym nceq caseless (codes "rtx") b.name ∙ h) refl

  -- The codec that is found in an offer is the offering side's.
  pub find_codec-offer :
      (codec : SdpRtpmap) (mid : Text) (t : RtpTransceiver)
      → t.stopped ≡ false
      → nceq codec.name (codes "rtx") ≡ false
      → (find_codec nceq codec (to_offer_sdp_media nceq mid t).rtpmaps ≡ none)
        ⊎ ((find_codec nceq codec (to_offer_sdp_media nceq mid t).rtpmaps ≡ some t.codec)
            × (is_match nceq t.codec codec ≡ true))
  unfolding find_codec
  find_codec-offer codec mid t running h = elim (Bool-cases (is_match nceq t.codec codec)) [
    | inl y ↦ inr (
      elim (offer_lem mid t running).0 [
        | inl e ↦ ap (λ l. find_codec nceq codec l) e ∙ if_true _ _ y
        | inr e ↦ ap (λ l. find_codec nceq codec l) e ∙ if_true _ _ y
      ],
      y,
    )
    | inr n ↦ inl (elim (offer_lem mid t running).0 [
      | inl e ↦ ap (λ l. find_codec nceq codec l) e ∙ if_false _ _ n
      | inr e ↦
          ap (λ l. find_codec nceq codec l) e
          ∙ if_false _ _ n
          ∙ if_false _ _ (rtx_no_match t.codec codec h)
    ])
  ]
