-- ===== src/Sdp/Media/Valid.antt =====
-- The invariant of a media section, kept by everything that changes one.
use asio_rtc.Common.{
  ℕ, Bool, false, ◌&&◌, ◌==◌, Option, none, some, List, [], ◌∷◌, ◌++◌, map, All, All-append, ◌≡◌,
  refl, sym, ap, ◌∙◌, inl, inr, Bool-cases, Option-cases, arith,
}
use asio_rtc.Sdp.{Text, SdpMedia, SdpRtpmap, SdpRtcpFb, Formats}
use asio_rtc.Sdp.Text.{is_empty}
use asio_rtc.Sdp.Media.{
  payload_types, find_rtpmap, add_rtpmap, set_params, same_fb, covers_type, has_fb, erase_fb,
  insert_fb, add_feedback,
}

abbrev pub types_of : List SdpRtpmap → List ℕ
types_of rtpmaps = map (λ (r : SdpRtpmap). r.payload_type) rtpmaps

-- No two codecs have the same payload type.
abbrev pub AreDistinct : List SdpRtpmap → Type 0
AreDistinct [] = Unit
AreDistinct (r ∷ rtpmaps) = (find_rtpmap r.payload_type rtpmaps ≡ none) × AreDistinct rtpmaps

-- The second feedback says nothing new next to the first.
unfoldable pub repeats : SdpRtcpFb → SdpRtcpFb → Bool
repeats f g = elim g.payload_type [
  | none ↦ same_fb f g
  | some pt ↦ same_fb f g && covers_type f.payload_type pt
]

abbrev pub HasNoRepeat : List SdpRtcpFb → Type 0
HasNoRepeat [] = Unit
HasNoRepeat (f ∷ fbs) = All (λ g. repeats f g ≡ false) fbs × HasNoRepeat fbs

abbrev pub AreNamed : List SdpRtcpFb → Type 0
AreNamed fbs = All (λ (f : SdpRtcpFb). is_empty f.kind ≡ false) fbs

-- The listed payload types are those of the codecs, in their order; no two codecs have the same;
-- every feedback has a kind, and none repeats an earlier one.
pub record AreConsistent (formats : Formats) (rtpmaps : List SdpRtpmap) (rtcp_fbs : List SdpRtcpFb)
    : Type 0 where
  pub listed : payload_types formats ≡ types_of rtpmaps
  pub distinct : AreDistinct rtpmaps
  pub named : AreNamed rtcp_fbs
  pub no_repeat : HasNoRepeat rtcp_fbs

abbrev pub IsConsistent : SdpMedia → Type 0
IsConsistent m = AreConsistent m.formats m.rtpmaps m.rtcp_fbs

-- Codecs
types_of-append :
    (rs : List SdpRtpmap) (r : SdpRtpmap)
    → types_of (rs ++ r ∷ []) ≡ types_of rs ++ r.payload_type ∷ []
types_of-append [] r = refl
types_of-append (x ∷ rs) r = ap (λ t. x.payload_type ∷ t) (types_of-append rs r)

find_rtpmap-append :
    (q : ℕ) (rs : List SdpRtpmap) (r : SdpRtpmap)
    → find_rtpmap q rs ≡ none
    → (r.payload_type == q) ≡ false
    → find_rtpmap q (rs ++ r ∷ []) ≡ none
unfolding find_rtpmap
find_rtpmap-append q [] r e h = simp h
find_rtpmap-append q (x ∷ rs) r e h = elim (Bool-cases (x.payload_type == q)) [
  | inl same ↦ absurd (ground (arith, rw same at e))
  | inr other ↦ rw other (find_rtpmap-append q rs r (rw other at e) h)
]

AreDistinct-append :
    (rs : List SdpRtpmap) (r : SdpRtpmap)
    → AreDistinct rs
    → find_rtpmap r.payload_type rs ≡ none
    → AreDistinct (rs ++ r ∷ [])
unfolding find_rtpmap
AreDistinct-append [] r d e = (refl, tt)
AreDistinct-append (x ∷ rs) r d e = elim (Bool-cases (x.payload_type == r.payload_type)) [
  | inl same ↦ absurd (ground (arith, rw same at e))
  | inr other ↦ (
    find_rtpmap-append x.payload_type rs r d.0 (ground (arith, other)),
    AreDistinct-append rs r d.1 (rw other at e),
  )
]

types_of-set_params :
    (pt : ℕ) (params : Text) (rs : List SdpRtpmap)
    → types_of (set_params pt params rs) ≡ types_of rs
unfolding set_params
types_of-set_params pt params [] = refl
types_of-set_params pt params (x ∷ rs) = elim (Bool-cases (x.payload_type == pt)) [
  | inl same ↦ rw same
  | inr other ↦ rw other (ap (λ t. x.payload_type ∷ t) (types_of-set_params pt params rs))
]

find_rtpmap-set_params :
    (q pt : ℕ) (params : Text) (rs : List SdpRtpmap)
    → find_rtpmap q rs ≡ none
    → find_rtpmap q (set_params pt params rs) ≡ none
unfolding find_rtpmap set_params
find_rtpmap-set_params q pt params [] e = refl
find_rtpmap-set_params q pt params (x ∷ rs) e = elim (Bool-cases (x.payload_type == q)) [
  | inl same ↦ absurd (ground (arith, rw same at e))
  | inr other ↦ elim (Bool-cases (x.payload_type == pt)) [
    | inl here ↦ simp (here, other, rw other at e)
    | inr there ↦ simp (there, other, find_rtpmap-set_params q pt params rs (rw other at e))
  ]
]

pub AreDistinct-set_params :
    (pt : ℕ) (params : Text) (rs : List SdpRtpmap)
    → AreDistinct rs
    → AreDistinct (set_params pt params rs)
unfolding set_params
AreDistinct-set_params pt params [] d = tt
AreDistinct-set_params pt params (x ∷ rs) d = elim (Bool-cases (x.payload_type == pt)) [
  | inl same ↦ rw same d
  | inr other ↦ rw other (
    find_rtpmap-set_params x.payload_type pt params rs d.0,
    AreDistinct-set_params pt params rs d.1,
  )
]

-- Feedback
HasNoRepeat-append :
    (fbs : List SdpRtcpFb) (g : SdpRtcpFb)
    → All (λ f. repeats f g ≡ false) fbs
    → HasNoRepeat fbs
    → HasNoRepeat (fbs ++ g ∷ [])
HasNoRepeat-append [] g h k = (tt, tt)
HasNoRepeat-append (f ∷ fbs) g h k = (
  All-append (λ x. repeats f x ≡ false) fbs (g ∷ []) k.0 (h.0, tt),
  HasNoRepeat-append fbs g h.1 k.1,
)

All-erase_fb :
    (P : SdpRtcpFb → Type 0) (fb : SdpRtcpFb) (fbs : List SdpRtcpFb)
    → All P fbs
    → All P (erase_fb fb fbs)
unfolding erase_fb
All-erase_fb P fb [] h = tt
All-erase_fb P fb (f ∷ fbs) h = elim (Bool-cases (same_fb f fb)) [
  | inl same ↦ rw same (All-erase_fb P fb fbs h.1)
  | inr other ↦ rw other (h.0, All-erase_fb P fb fbs h.1)
]

HasNoRepeat-erase_fb :
    (fb : SdpRtcpFb) (fbs : List SdpRtcpFb) → HasNoRepeat fbs → HasNoRepeat (erase_fb fb fbs)
unfolding erase_fb
HasNoRepeat-erase_fb fb [] h = tt
HasNoRepeat-erase_fb fb (f ∷ fbs) h = elim (Bool-cases (same_fb f fb)) [
  | inl same ↦ rw same (HasNoRepeat-erase_fb fb fbs h.1)
  | inr other ↦
      rw other (All-erase_fb (λ g. repeats f g ≡ false) fb fbs h.0, HasNoRepeat-erase_fb fb fbs h.1)
]

erase_fb_different :
    (fb : SdpRtcpFb) (fbs : List SdpRtcpFb) → All (λ f. same_fb f fb ≡ false) (erase_fb fb fbs)
unfolding erase_fb
erase_fb_different fb [] = tt
erase_fb_different fb (f ∷ fbs) = elim (Bool-cases (same_fb f fb)) [
  | inl same ↦ rw same (erase_fb_different fb fbs)
  | inr other ↦ rw other (other, erase_fb_different fb fbs)
]

repeats_nothing :
    (fb : SdpRtcpFb) (pt : ℕ) (fbs : List SdpRtcpFb)
    → has_fb pt fb fbs ≡ false
    → All (λ f. (same_fb f fb && covers_type f.payload_type pt) ≡ false) fbs
unfolding has_fb
repeats_nothing fb pt [] h = tt
repeats_nothing fb pt (f ∷ fbs) h =
    elim (Bool-cases (same_fb f fb && covers_type f.payload_type pt)) [
      | inl there ↦ absurd (ground (arith, rw there at h))
      | inr new ↦ (new, repeats_nothing fb pt fbs (rw new at h))
    ]

insert_fb_keeps :
    (fb : SdpRtcpFb) (target : Option ℕ) (fbs : List SdpRtcpFb)
    → fb.payload_type ≡ target
    → is_empty fb.kind ≡ false
    → AreNamed fbs
    → HasNoRepeat fbs
    → AreNamed (insert_fb fb target fbs) × HasNoRepeat (insert_fb fb target fbs)
unfolding insert_fb repeats same_fb erase_fb
insert_fb_keeps fb none fbs e k n h = (
  All-append (λ (f : SdpRtcpFb). is_empty f.kind ≡ false) (erase_fb fb fbs) (fb ∷ [])
      (All-erase_fb _ fb fbs n) (k, tt),
  HasNoRepeat-append (erase_fb fb fbs) fb (rw e (erase_fb_different fb fbs))
      (HasNoRepeat-erase_fb fb fbs h),
)
insert_fb_keeps fb (some pt) fbs e k n h = elim (Bool-cases (has_fb pt fb fbs)) [
  | inl there ↦ rw there (n, h)
  | inr new ↦ rw new (
    All-append (λ (f : SdpRtcpFb). is_empty f.kind ≡ false) fbs (fb ∷ []) n (k, tt),
    HasNoRepeat-append fbs fb (rw e (repeats_nothing fb pt fbs new)) h,
  )
]

-- A payload type is listed with its codec, unless there is one already.
pub add_rtpmap-IsConsistent :
    (r : SdpRtpmap) (m : SdpMedia) → IsConsistent m → IsConsistent (add_rtpmap r m)
unfolding payload_types add_rtpmap
add_rtpmap-IsConsistent r m c = elim (Option-cases (find_rtpmap r.payload_type m.rtpmaps)) [
  | inr (old, e) ↦ rw (add_rtpmap, e) c
  | inl e ↦
      rw (add_rtpmap, e)
        (record {
          listed = ap (λ t. t ++ r.payload_type ∷ []) c.listed ∙ sym (types_of-append m.rtpmaps r);
          distinct = AreDistinct-append m.rtpmaps r c.distinct e;
          named = c.named;
          no_repeat = c.no_repeat;
        })
]

-- A feedback message is added once, and one for all payload types takes the place of the same ones.
pub add_feedback_keeps :
    (fb : SdpRtcpFb) (fbs : List SdpRtcpFb)
    → AreNamed fbs
    → HasNoRepeat fbs
    → AreNamed (add_feedback fb fbs) × HasNoRepeat (add_feedback fb fbs)
unfolding add_feedback
add_feedback_keeps fb fbs n h = elim (Bool-cases (is_empty fb.kind)) [
  | inl none_given ↦ rw none_given (n, h)
  | inr given ↦ rw given (insert_fb_keeps fb fb.payload_type fbs refl given n h)
]

pub set_params-IsConsistent :
    (pt : ℕ) (params : Text) (m : SdpMedia)
    → IsConsistent m
    → AreConsistent m.formats (set_params pt params m.rtpmaps) m.rtcp_fbs
set_params-IsConsistent pt params m c = record {
  listed = c.listed ∙ sym (types_of-set_params pt params m.rtpmaps);
  distinct = AreDistinct-set_params pt params m.rtpmaps c.distinct;
  named = c.named;
  no_repeat = c.no_repeat;
}
