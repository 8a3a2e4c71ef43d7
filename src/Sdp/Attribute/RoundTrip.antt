-- ===== src/Sdp/Attribute/RoundTrip.antt =====
-- The value of a printed attribute is parsed back.
use asio_rtc.Common.{
  ℕ, ◌^◌, ◌<◌, ◌==◌, ◌≡◌, refl, sym, ap, true, false, Option, none, some, [], ◌∷◌, ◌++◌, All,
  All-append, append-nil, Bool-cases, inl, inr, arith,
}
use asio_rtc.Sdp.{Text, SdpRtpmap, SdpRtcpFb}
use asio_rtc.Sdp.Text.{is_empty, equal, codes}
use asio_rtc.Sdp.Text.Laws.{
  Without, split_first-append, split_first-none, IsWord, IsTrimmed, trim-IsTrimmed,
  IsWord-IsTrimmed, append-IsTrimmed, EndsWell, EndsWell-append, word_ends, trimmed_ends,
  Without-IsWord,
}
use asio_rtc.Sdp.Number.{is_digit, number_text}
use asio_rtc.Sdp.Number.RoundTrip.{
  number_text-IsDigits, parse_uint-number_text, IsWord-number_text, Without-number_text,
  EndsWell-number_text,
}
use asio_rtc.Sdp.Attribute.{parse_clock, parse_rtpmap, fb_kind, parse_fb_target, parse_rtcpfb}
use asio_rtc.Sdp.Print.{unless_empty, channels_text, fb_target}

-- A word that is not empty.
pub record IsName (s : Text) : Type 0 where
  pub name_lem : is_empty s ≡ false
  pub word : IsWord s

pub IsName-ends : (s : Text) → IsName s → EndsWell s
IsName-ends [] n = ground (arith, n.name_lem)
IsName-ends (c ∷ s) n = word_ends c s n.word

-- A number that fits, where there is one.
abbrev pub Fits : ℕ → Option ℕ → Type 0
Fits width none = Unit
Fits width (some n) = n < 2 ^ width

-- A space and text behind it, unless that is empty, behind a name.
pub phrase-IsTrimmed : (s t : Text) → IsName s → IsTrimmed t → IsTrimmed (s ++ unless_empty 32 t)
phrase-IsTrimmed s [] n h = rw (append-nil s) (IsWord-IsTrimmed s n.word)
phrase-IsTrimmed s (c ∷ t) n h =
    append-IsTrimmed s (32 ∷ c ∷ t) n.name_lem n.word refl
      (EndsWell-append (32 ∷ []) (trimmed_ends c t h)).end_lem

pub phrase_ends : (s t : Text) → IsName s → IsTrimmed t → EndsWell (s ++ unless_empty 32 t)
phrase_ends s [] n h = rw (append-nil s) (IsName-ends s n)
phrase_ends s (c ∷ t) n h = EndsWell-append s (EndsWell-append (32 ∷ []) (trimmed_ends c t h))

-- Codecs
pub record IsPrintableRtpmap (r : SdpRtpmap) : Type 0 where
  pub type_fits : r.payload_type < 2 ^ 8
  pub named : IsName r.name
  pub no_slash : Without 47 r.name
  pub rate_fits : r.clock_rate < 2 ^ 32
  pub channels_fit : Fits 8 r.channels
  pub no_params : r.params ≡ []

abbrev pub rtpmap_value : SdpRtpmap → Text
rtpmap_value r =
    number_text r.payload_type
    ++ 32 ∷ (r.name ++ 47 ∷ (number_text r.clock_rate ++ channels_text r.channels))

parse_clock-channels :
    (rate : ℕ) (channels : Option ℕ)
    → rate < 2 ^ 32
    → Fits 8 channels
    → parse_clock (number_text rate ++ channels_text channels) ≡ some (rate, channels)
unfolding parse_clock channels_text
parse_clock-channels rate none h f = simp (
  parse_clock,
  append-nil (number_text rate),
  split_first-none 47 (number_text rate) (Without-number_text 47 rate refl),
  parse_uint-number_text 32 rate h,
)
parse_clock-channels rate (some n) h f = simp (
  parse_clock,
  split_first-append 47 (number_text rate) (number_text n) (Without-number_text 47 rate refl),
  parse_uint-number_text 32 rate h,
  trim-IsTrimmed (number_text n) (IsWord-IsTrimmed _ (IsWord-number_text n)),
  parse_uint-number_text 8 n f,
)

channels_words :
    (rate : ℕ) (channels : Option ℕ) → IsWord (number_text rate ++ channels_text channels)
unfolding channels_text
channels_words rate none = rw (append-nil (number_text rate)) (IsWord-number_text rate)
channels_words rate (some n) =
    All-append _ (number_text rate) _ (IsWord-number_text rate) (refl, IsWord-number_text n)

pub parse_rtpmap-value :
    (r : SdpRtpmap) → IsPrintableRtpmap r → parse_rtpmap (rtpmap_value r) ≡ some r
unfolding parse_rtpmap
parse_rtpmap-value r h =
    let behind : Text = r.name ++ 47 ∷ (number_text r.clock_rate ++ channels_text r.channels) in
    let tidy : IsWord behind =
      All-append _ r.name _ h.named.word (refl, channels_words r.clock_rate r.channels) in
    simp
      (
        split_first-append 32 (number_text r.payload_type) behind
            (Without-number_text 32 r.payload_type refl),
        parse_uint-number_text 8 r.payload_type h.type_fits,
        trim-IsTrimmed behind (IsWord-IsTrimmed behind tidy),
        split_first-append 47 r.name (number_text r.clock_rate ++ channels_text r.channels)
            h.no_slash,
        parse_clock-channels r.clock_rate r.channels h.rate_fits h.channels_fit,
      )
      (ap (λ p. some (record r { params = p })) (sym h.no_params))

-- Feedback
pub record IsPrintableFb (fb : SdpRtcpFb) : Type 0 where
  pub type_fits : Fits 8 fb.payload_type
  pub named : IsName fb.kind
  pub tidy : IsTrimmed fb.subtype

abbrev pub rtcp_fb_value : SdpRtcpFb → Text
rtcp_fb_value fb = fb_target fb.payload_type ++ 32 ∷ (fb.kind ++ unless_empty 32 fb.subtype)

digits_no_star : (s : Text) → All (λ c. is_digit c ≡ true) s → equal s (codes "*") ≡ false
unfolding equal
digits_no_star [] h = refl
digits_no_star (c ∷ s) h = elim (Bool-cases (c == 42)) [
  | inl star ↦ ground (arith, h.0)
  | inr other ↦ rw other
]

parse_fb_target-fb_target : (t : Option ℕ) → Fits 8 t → parse_fb_target (fb_target t) ≡ some t
unfolding parse_fb_target fb_target equal
parse_fb_target-fb_target none h = refl
parse_fb_target-fb_target (some pt) h =
    simp (digits_no_star (number_text pt) (number_text-IsDigits pt), parse_uint-number_text 8 pt h)

fb_target_no_space : (t : Option ℕ) → Without 32 (fb_target t)
unfolding fb_target
fb_target_no_space none = (refl, tt)
fb_target_no_space (some pt) = Without-number_text 32 pt refl

fb_kind-phrase :
    (t : Option ℕ) (kind subtype : Text)
    → IsName kind
    → IsTrimmed subtype
    → fb_kind t (kind ++ unless_empty 32 subtype)
      ≡ (record { payload_type = t; kind = kind; subtype = subtype })
unfolding fb_kind
fb_kind-phrase t kind [] n h =
    simp (fb_kind, append-nil kind, split_first-none 32 kind (Without-IsWord 32 kind refl n.word))
fb_kind-phrase t kind (c ∷ s) n h = simp (
  fb_kind,
  split_first-append 32 kind (c ∷ s) (Without-IsWord 32 kind refl n.word),
  trim-IsTrimmed (c ∷ s) h,
)

pub parse_rtcpfb-value :
    (fb : SdpRtcpFb) → IsPrintableFb fb → parse_rtcpfb (rtcp_fb_value fb) ≡ some fb
unfolding parse_rtcpfb
parse_rtcpfb-value fb h = simp (
  split_first-append 32 (fb_target fb.payload_type) (fb.kind ++ unless_empty 32 fb.subtype)
      (fb_target_no_space fb.payload_type),
  parse_fb_target-fb_target fb.payload_type h.type_fits,
  trim-IsTrimmed (fb.kind ++ unless_empty 32 fb.subtype)
      (phrase-IsTrimmed fb.kind fb.subtype h.named h.tidy),
  fb_kind-phrase fb.payload_type fb.kind fb.subtype h.named h.tidy,
)

-- No blank stands at the end of a printed value.
channels_ends :
    (rate : ℕ) (channels : Option ℕ) → EndsWell (number_text rate ++ channels_text channels)
unfolding channels_text
channels_ends rate none = rw (append-nil (number_text rate)) (EndsWell-number_text rate)
channels_ends rate (some n) =
    EndsWell-append (number_text rate) (EndsWell-append (47 ∷ []) (EndsWell-number_text n))

pub rtpmap_value_ends : (r : SdpRtpmap) → EndsWell (rtpmap_value r)
rtpmap_value_ends r = EndsWell-append (number_text r.payload_type) (
    EndsWell-append (32 ∷ r.name)
      (EndsWell-append (47 ∷ []) (channels_ends r.clock_rate r.channels)))

pub rtcp_fb_value_ends : (fb : SdpRtcpFb) → IsPrintableFb fb → EndsWell (rtcp_fb_value fb)
rtcp_fb_value_ends fb h =
    EndsWell-append (fb_target fb.payload_type)
      (EndsWell-append (32 ∷ []) (phrase_ends fb.kind fb.subtype h.named h.tidy))
