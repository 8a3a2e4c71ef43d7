-- ===== src/Transceiver/Match.antt =====
-- When two codecs are the same, and what negotiating a direction twice gives.
use asio_rtc.Common.{
  ℕ, ◌≡◌, refl, sym, ap, ◌∙◌, inl, inr, true, ◌==◌, ==_iff, Bool-cases, Option, none, some, [], ◌∷◌,
  map, arith,
}
use asio_rtc.Sdp.{Text, SdpDirection, inactive, sendonly, recvonly, sendrecv, SdpRtpmap}
use asio_rtc.Sdp.Text.{codes, equal}
use asio_rtc.Sdp.Text.Laws.{equal_eq, equal_refl}
use asio_rtc.Sdp.Names.{Nceq, IsCaseless, to_lower}
use asio_rtc.Sdp.Params.{find_param}
use asio_rtc.Sdp.Codec.{same_number, same_text, is_match}
use asio_rtc.Sdp.Direction.{to_underlying, from_underlying, reverse_direction, negotiate_direction}
use asio_rtc.Transceiver.{is_inactive}

equal_sym : (s t : Text) → equal s t ≡ equal t s
unfolding equal
equal_sym [] [] = refl
equal_sym [] (b ∷ t) = refl
equal_sym (a ∷ s) [] = refl
equal_sym (a ∷ s) (b ∷ t) = ground (arith, equal_sym s t)

same_number_refl : (a : Option ℕ) → same_number a a ≡ true
unfolding same_number
same_number_refl none = refl
same_number_refl (some a) = ground arith

same_number_sym : (a b : Option ℕ) → same_number a b ≡ same_number b a
unfolding same_number
same_number_sym none none = refl
same_number_sym none (some b) = refl
same_number_sym (some a) none = refl
same_number_sym (some a) (some b) = ground arith

same_text_refl : (a : Option Text) → same_text a a ≡ true
unfolding same_text
same_text_refl none = refl
same_text_refl (some a) = equal_refl a

same_text_sym : (a b : Option Text) → same_text a b ≡ same_text b a
unfolding same_text
same_text_sym none none = refl
same_text_sym none (some b) = refl
same_text_sym (some a) none = refl
same_text_sym (some a) (some b) = equal_sym a b

==_sym : (a b : ℕ) → (a == b) ≡ (b == a)
==_sym a b = ground arith

pub negotiate_twice :
    (local remote : SdpDirection)
    → negotiate_direction (negotiate_direction local remote) remote
      ≡ negotiate_direction local remote
unfolding negotiate_direction to_underlying from_underlying reverse_direction
negotiate_twice inactive inactive = refl
negotiate_twice inactive sendonly = refl
negotiate_twice inactive recvonly = refl
negotiate_twice inactive sendrecv = refl
negotiate_twice sendonly inactive = refl
negotiate_twice sendonly sendonly = refl
negotiate_twice sendonly recvonly = refl
negotiate_twice sendonly sendrecv = refl
negotiate_twice recvonly inactive = refl
negotiate_twice recvonly sendonly = refl
negotiate_twice recvonly recvonly = refl
negotiate_twice recvonly sendrecv = refl
negotiate_twice sendrecv inactive = refl
negotiate_twice sendrecv sendonly = refl
negotiate_twice sendrecv recvonly = refl
negotiate_twice sendrecv sendrecv = refl

pub negotiate_back :
    (local remote : SdpDirection)
    → negotiate_direction local (negotiate_direction remote local)
      ≡ reverse_direction (negotiate_direction remote local)
unfolding negotiate_direction to_underlying from_underlying reverse_direction
negotiate_back inactive inactive = refl
negotiate_back inactive sendonly = refl
negotiate_back inactive recvonly = refl
negotiate_back inactive sendrecv = refl
negotiate_back sendonly inactive = refl
negotiate_back sendonly sendonly = refl
negotiate_back sendonly recvonly = refl
negotiate_back sendonly sendrecv = refl
negotiate_back recvonly inactive = refl
negotiate_back recvonly sendonly = refl
negotiate_back recvonly recvonly = refl
negotiate_back recvonly sendrecv = refl
negotiate_back sendrecv inactive = refl
negotiate_back sendrecv sendonly = refl
negotiate_back sendrecv recvonly = refl
negotiate_back sendrecv sendrecv = refl

pub negotiate_inactive : (local : SdpDirection) → negotiate_direction local inactive ≡ inactive
unfolding negotiate_direction to_underlying from_underlying reverse_direction
negotiate_inactive inactive = refl
negotiate_inactive sendonly = refl
negotiate_inactive recvonly = refl
negotiate_inactive sendrecv = refl

pub inactive_negotiate : (remote : SdpDirection) → negotiate_direction inactive remote ≡ inactive
unfolding negotiate_direction to_underlying from_underlying reverse_direction
inactive_negotiate inactive = refl
inactive_negotiate sendonly = refl
inactive_negotiate recvonly = refl
inactive_negotiate sendrecv = refl

pub is_inactive_lem : (d : SdpDirection) → is_inactive d ≡ true → d ≡ inactive
unfolding is_inactive
is_inactive_lem inactive h = refl
is_inactive_lem sendonly h = absurd (ground (arith, h))
is_inactive_lem recvonly h = absurd (ground (arith, h))
is_inactive_lem sendrecv h = absurd (ground (arith, h))

pub is_inactive-reverse : (d : SdpDirection) → is_inactive (reverse_direction d) ≡ is_inactive d
unfolding is_inactive reverse_direction
is_inactive-reverse inactive = refl
is_inactive-reverse sendonly = refl
is_inactive-reverse recvonly = refl
is_inactive-reverse sendrecv = refl

module _ (nceq : Nceq) (caseless : IsCaseless nceq) where
  nceq_refl : (s : Text) → nceq s s ≡ true
  nceq_refl s = caseless.nceq_lem s s ∙ equal_refl (map to_lower s)

  pub nceq_sym : (s t : Text) → nceq s t ≡ nceq t s
  nceq_sym s t =
      caseless.nceq_lem s t
      ∙ equal_sym (map to_lower s) (map to_lower t)
      ∙ sym (caseless.nceq_lem t s)

  -- Texts that are the same without regard to case compare alike.
  nceq_same : (s t u : Text) → nceq s t ≡ true → nceq s u ≡ nceq t u
  nceq_same s t u h =
      caseless.nceq_lem s u
      ∙ ap (λ (l : Text). equal l (map to_lower u))
          (equal_eq (map to_lower s) (map to_lower t) (sym (caseless.nceq_lem s t) ∙ h))
      ∙ sym (caseless.nceq_lem t u)

  pub is_match_refl : (a : SdpRtpmap) → is_match nceq a a ≡ true
  unfolding is_match
  is_match_refl a =
      rw
        (
          nceq_refl a.name,
          same_number_refl a.channels,
          same_text_refl (find_param (codes "profile-level-id") a.params),
          (==_iff a.clock_rate a.clock_rate).1 refl,
        )
        (elim (Bool-cases (nceq a.name (codes "H264"))) [ inl e ↦ rw e refl | inr e ↦ rw e refl ])

  pub is_match_sym : (a b : SdpRtpmap) → is_match nceq a b ≡ is_match nceq b a
  unfolding is_match
  is_match_sym a b = elim (Bool-cases (nceq a.name b.name)) [
    | inr e ↦ rw (e, sym (nceq_sym a.name b.name) ∙ e) refl
    | inl e ↦
        rw
          (
            e,
            sym (nceq_sym a.name b.name) ∙ e,
            ==_sym a.clock_rate b.clock_rate,
            same_number_sym a.channels b.channels,
            nceq_same a.name b.name (codes "H264") e,
            same_text_sym (find_param (codes "profile-level-id") a.params)
                (find_param (codes "profile-level-id") b.params),
          )
          refl
  ]
