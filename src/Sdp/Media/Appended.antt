-- ===== src/Sdp/Media/Appended.antt =====
-- What a new attribute adds to a media section.
use asio_rtc.Common.{
  ℕ, ◌≡◌, refl, ap, inl, inr, true, false, ◌==◌, ==_iff, Bool-cases, Option, none, some, List, [],
  ◌∷◌, ◌++◌, All, arith,
}
use asio_rtc.Sdp.{SdpRtpmap, SdpRtcpFb, Formats, numbers, names, monostate, SdpMedia}
use asio_rtc.Sdp.Text.{equal}
use asio_rtc.Sdp.Text.Laws.{equal_eq}
use asio_rtc.Sdp.Media.{
  payload_types, find_rtpmap, add_rtpmap, same_fb, covers_type, has_fb, erase_fb, insert_fb,
  add_feedback,
}
use asio_rtc.Sdp.Media.Printed.{
  Attr, codec, feedback, extension, source, certificate, stream, role, section_name, ufrag, pwd,
  sctp, message_size, IsPrintable, with_attr,
}

-- The formats of a section with one more payload type.
unfoldable pub with_type : ℕ → Formats → Formats
with_type pt (numbers pts) = numbers (pts ++ pt ∷ [])
with_type pt monostate = numbers (pt ∷ [])
with_type pt (names fmts) = numbers (pt ∷ [])

-- The section with the attribute behind its others of the kind, or in the place of the one it had.
abbrev pub append_attr : Attr → SdpMedia → SdpMedia
append_attr (codec r) m = record m {
  rtpmaps = m.rtpmaps ++ r ∷ [];
  formats = with_type r.payload_type m.formats;
}
append_attr (feedback fb) m = record m { rtcp_fbs = m.rtcp_fbs ++ fb ∷ [] }
append_attr (extension e) m = record m { extmaps = m.extmaps ++ e ∷ [] }
append_attr (source s) m = record m { ssrcs = m.ssrcs ++ s ∷ [] }
append_attr (certificate f) m = record m { fingerprints = m.fingerprints ++ f ∷ [] }
append_attr (stream i) m = record m { msids = m.msids ++ i ∷ [] }
append_attr (role r) m = record m { setup = some r }
append_attr (section_name s) m = record m { mid = s }
append_attr (ufrag s) m = record m { ice_ufrag = s }
append_attr (pwd s) m = record m { ice_pwd = s }
append_attr (sctp n) m = record m { sctp_port = some n }
append_attr (message_size n) m = record m { max_message_size = some n }

-- Two payload types of feedback messages meet: one is for all, or they are equal.
abbrev Meet : Option ℕ → Option ℕ → Type 0
Meet none q = Unit
Meet (some p) none = Unit
Meet (some p) (some q) = p ≡ q

-- The section has no codec for the payload type, or no feedback message of the same kind and
-- subtype for the payload type.
abbrev pub IsNew : Attr → SdpMedia → Type 0
IsNew (codec r) m = All (λ (c : SdpRtpmap). ¬ (c.payload_type ≡ r.payload_type)) m.rtpmaps
IsNew (feedback fb) m =
    All
      (λ (f : SdpRtcpFb).
        ¬ ((f.kind ≡ fb.kind) × (f.subtype ≡ fb.subtype) × Meet f.payload_type fb.payload_type))
      m.rtcp_fbs
IsNew _ m = Unit

find_rtpmap-new :
    (pt : ℕ) (rtpmaps : List SdpRtpmap)
    → All (λ (c : SdpRtpmap). ¬ (c.payload_type ≡ pt)) rtpmaps
    → find_rtpmap pt rtpmaps ≡ none
unfolding find_rtpmap
find_rtpmap-new pt [] h = refl
find_rtpmap-new pt (r ∷ rtpmaps) h = elim (Bool-cases (r.payload_type == pt)) [
  | inl e ↦ absurd (h.0 ((==_iff r.payload_type pt).0 e))
  | inr e ↦ rw e (find_rtpmap-new pt rtpmaps h.1)
]

payload_types-with_type :
    (pt : ℕ) (fmts : Formats) → numbers (payload_types fmts ++ pt ∷ []) ≡ with_type pt fmts
unfolding payload_types with_type
payload_types-with_type pt (numbers pts) = refl
payload_types-with_type pt monostate = refl
payload_types-with_type pt (names fmts) = refl

same_fb_lem :
    (f fb : SdpRtcpFb) → same_fb f fb ≡ true → (f.kind ≡ fb.kind) × (f.subtype ≡ fb.subtype)
unfolding same_fb
same_fb_lem f fb h = elim (Bool-cases (equal f.kind fb.kind)) [
  | inl k ↦ elim (Bool-cases (equal f.subtype fb.subtype)) [
    | inl s ↦ (equal_eq f.kind fb.kind k, equal_eq f.subtype fb.subtype s)
    | inr s ↦ absurd (ground (arith, rw (k, s) at h))
  ]
  | inr k ↦ absurd (ground (arith, rw k at h))
]

covers_type_lem : (p : Option ℕ) (q : ℕ) → covers_type p q ≡ true → Meet p (some q)
covers_type_lem none q h = tt
covers_type_lem (some p) q h = (==_iff p q).0 h

Meet-all : (p : Option ℕ) → Meet p none
Meet-all none = tt
Meet-all (some p) = tt

abbrev AreOther : SdpRtcpFb → Option ℕ → List SdpRtcpFb → Type 0
AreOther fb pt fbs =
    All
      (λ (f : SdpRtcpFb).
        ¬ ((f.kind ≡ fb.kind) × (f.subtype ≡ fb.subtype) × Meet f.payload_type pt))
      fbs

has_fb-new :
    (pt : ℕ) (fb : SdpRtcpFb) (fbs : List SdpRtcpFb)
    → AreOther fb (some pt) fbs
    → has_fb pt fb fbs ≡ false
unfolding has_fb
has_fb-new pt fb [] h = refl
has_fb-new pt fb (f ∷ fbs) h = elim (Bool-cases (same_fb f fb)) [
  | inl s ↦ elim (Bool-cases (covers_type f.payload_type pt)) [
    | inl c ↦
        let (k, t) = same_fb_lem f fb s in absurd (h.0 (k, t, covers_type_lem f.payload_type pt c))
    | inr c ↦ rw (s, c) (has_fb-new pt fb fbs h.1)
  ]
  | inr s ↦ rw s (has_fb-new pt fb fbs h.1)
]

erase_fb-new :
    (fb : SdpRtcpFb) (fbs : List SdpRtcpFb) → AreOther fb none fbs → erase_fb fb fbs ≡ fbs
unfolding erase_fb
erase_fb-new fb [] h = refl
erase_fb-new fb (f ∷ fbs) h = elim (Bool-cases (same_fb f fb)) [
  | inl s ↦ let (k, t) = same_fb_lem f fb s in absurd (h.0 (k, t, Meet-all f.payload_type))
  | inr s ↦ rw s (ap (λ l. f ∷ l) (erase_fb-new fb fbs h.1))
]

insert_fb-new :
    (fb : SdpRtcpFb) (pt : Option ℕ) (fbs : List SdpRtcpFb)
    → AreOther fb pt fbs
    → insert_fb fb pt fbs ≡ fbs ++ fb ∷ []
unfolding insert_fb
insert_fb-new fb none fbs h = ap (λ l. l ++ fb ∷ []) (erase_fb-new fb fbs h)
insert_fb-new fb (some pt) fbs h = rw (has_fb-new pt fb fbs h) refl

-- The parser adds a new attribute, and nothing else.
pub with_attr-new :
    (a : Attr) (m : SdpMedia) → IsPrintable a → IsNew a m → with_attr a m ≡ append_attr a m
unfolding add_rtpmap add_feedback
with_attr-new (codec r) m p h =
    rw (add_rtpmap, find_rtpmap-new r.payload_type m.rtpmaps h)
      (ap (λ fmts. record m { rtpmaps = m.rtpmaps ++ r ∷ []; formats = fmts })
        (payload_types-with_type r.payload_type m.formats))
with_attr-new (feedback fb) m p h =
    ap (λ fbs. record m { rtcp_fbs = fbs })
      (rw (add_feedback, p.named.name_lem) (insert_fb-new fb fb.payload_type m.rtcp_fbs h))
with_attr-new (extension e) m p h = refl
with_attr-new (source s) m p h = refl
with_attr-new (certificate f) m p h = refl
with_attr-new (stream i) m p h = refl
with_attr-new (role r) m p h = refl
with_attr-new (section_name s) m p h = refl
with_attr-new (ufrag s) m p h = refl
with_attr-new (pwd s) m p h = refl
with_attr-new (sctp n) m p h = refl
with_attr-new (message_size n) m p h = refl
