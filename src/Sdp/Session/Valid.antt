-- ===== src/Sdp/Session/Valid.antt =====
-- The media sections of a parsed description.
use asio_rtc.Common.{
  refl, inl, inr, Bool-cases, arith, true, Option, some, List, [], ◌∷◌, ◌++◌, length, All,
  All-append, ◌≡◌, IfSome, IfSome-some, on_result, on_kept, nothing,
}
use asio_rtc.Sdp.{Text, SdpMsid, SdpMedia, SessionDescription}
use asio_rtc.Sdp.Text.{equal, words}
use asio_rtc.Sdp.Text.Laws.{equal_eq}
use asio_rtc.Sdp.Names.{Nceq}
use asio_rtc.Sdp.Attribute.{same_track, check_msids, check_msid, Patterns}
use asio_rtc.Sdp.Simulcast.{RidPatterns}
use asio_rtc.Sdp.Media.{parse_media_line}
use asio_rtc.Sdp.Media.Valid.{IsConsistent}
use asio_rtc.Sdp.Session.{change_last, last_checked, do_parse}
use asio_rtc.Sdp.Media.Kept.{Kept, attr-Kept, media_from_words-Kept}
use asio_rtc.Sdp.Session.Induction.{do_parse_induction}

change_last-Kept :
    (f : SdpMedia → Option SdpMedia)
    → ((m : SdpMedia) → IsConsistent m → Kept (f m))
    → (ms : List SdpMedia) → All IsConsistent ms
    → IfSome (All IsConsistent) (change_last f ms)
unfolding change_last
change_last-Kept f k [] h = nothing
change_last-Kept f k (m ∷ []) h = on_kept (f m) _ (k m h.0) (λ m' c. IfSome-some (c, tt))
change_last-Kept f k (m ∷ n ∷ ms) h =
    on_kept (change_last f (n ∷ ms)) _ (change_last-Kept f k (n ∷ ms) h.1)
      (λ ms' c. IfSome-some (h.0, c))

-- All sections but the last have passed the check of their stream and track names.
abbrev AreCheckedBeforeLast : List SdpMedia → Type 0
AreCheckedBeforeLast [] = Unit
AreCheckedBeforeLast (m ∷ []) = Unit
AreCheckedBeforeLast (m ∷ n ∷ ms) = (check_msid m ≡ true) × AreCheckedBeforeLast (n ∷ ms)

-- The entries name the track `id`.
abbrev NameTrack : Text → List SdpMsid → Type 0
NameTrack id msids = All (λ (m : SdpMsid). m.track_id ≡ id) msids

-- There is one track that all entries name.
abbrev pub AreOnOneTrack : List SdpMsid → Type 0
AreOnOneTrack msids = (id : Text) × NameTrack id msids

abbrev pub AreOnOneTrackBeforeLast : List SdpMedia → Type 0
AreOnOneTrackBeforeLast [] = Unit
AreOnOneTrackBeforeLast (m ∷ []) = Unit
AreOnOneTrackBeforeLast (m ∷ n ∷ ms) = AreOnOneTrack m.msids × AreOnOneTrackBeforeLast (n ∷ ms)

same_track_lem :
    (id : Text) (msids : List SdpMsid) → same_track id msids ≡ true → NameTrack id msids
unfolding same_track
same_track_lem id [] h = tt
same_track_lem id (m ∷ msids) h = elim (Bool-cases (equal m.track_id id)) [
  | inl same ↦ (equal_eq m.track_id id same, same_track_lem id msids (ground (arith, rw same at h)))
  | inr other ↦ absurd (ground (arith, rw other at h))
]

check_msids_lem : (msids : List SdpMsid) → check_msids msids ≡ true → AreOnOneTrack msids
unfolding check_msids
check_msids_lem [] h = ([], tt)
check_msids_lem (m ∷ msids) h = (m.track_id, (refl, same_track_lem m.track_id msids h))

checked-one_track : (ms : List SdpMedia) → AreCheckedBeforeLast ms → AreOnOneTrackBeforeLast ms
checked-one_track [] h = tt
checked-one_track (m ∷ []) h = tt
checked-one_track (m ∷ n ∷ ms) h = (check_msids_lem m.msids h.0, checked-one_track (n ∷ ms) h.1)

checked_append :
    (ms : List SdpMedia) (n : SdpMedia)
    → last_checked ms ≡ true
    → AreCheckedBeforeLast ms
    → AreCheckedBeforeLast (ms ++ n ∷ [])
unfolding last_checked
checked_append [] n e h = tt
checked_append (m ∷ []) n e h = (e, tt)
checked_append (m ∷ k ∷ ms) n e h = (h.0, checked_append (k ∷ ms) n e h.1)

front_change :
    (f : SdpMedia → Option SdpMedia) (m n : SdpMedia) (ms : List SdpMedia)
    → check_msid m ≡ true
    → IfSome AreCheckedBeforeLast (change_last f (n ∷ ms))
    → IfSome (λ ms'. AreCheckedBeforeLast (m ∷ ms')) (change_last f (n ∷ ms))
unfolding change_last
front_change f m n [] e h = on_result (f n) _ (λ n'. IfSome-some (e, tt))
front_change f m n (k ∷ ms) e h = record { holds = λ ms' q. with_front m ms' e (h.holds ms' q) }
  where
    with_front :
        (m : SdpMedia) (ms : List SdpMedia)
        → check_msid m ≡ true
        → AreCheckedBeforeLast ms
        → AreCheckedBeforeLast (m ∷ ms)
    with_front m [] e h = tt
    with_front m (n ∷ ms) e h = (e, h)

change_last_checked :
    (f : SdpMedia → Option SdpMedia) (ms : List SdpMedia)
    → AreCheckedBeforeLast ms
    → IfSome AreCheckedBeforeLast (change_last f ms)
unfolding change_last
change_last_checked f [] h = nothing
change_last_checked f (m ∷ []) h = on_result (f m) _ (λ m'. IfSome-some tt)
change_last_checked f (m ∷ n ∷ ms) h =
    on_kept (change_last f (n ∷ ms)) _
      (front_change f m n ms h.0 (change_last_checked f (n ∷ ms) h.1)) (λ ms' c. IfSome-some c)

line-Kept : (nceq : Nceq) (val : Text) → Kept (parse_media_line nceq val)
unfolding parse_media_line
line-Kept nceq val = media_from_words-Kept nceq (words (length val) val)

module _ (nceq : Nceq) (patterns : Patterns) (rid_patterns : RidPatterns) where
  -- In every description that the parser accepts, each media section lists exactly the payload types
  -- of its codecs, in their order; no payload type has two codecs; every feedback message has a
  -- kind, and none says again what an earlier one says for the same payload type or for all.
  pub do_parse-IsConsistent :
      (sdp type : Text) (s : SessionDescription)
      → do_parse nceq patterns rid_patterns sdp type ≡ some s
      → All IsConsistent s.medias
  do_parse-IsConsistent sdp type s e =
      do_parse_induction
        (record {
          at_start = tt;
          at_attr = λ name value ms c.
              change_last-Kept _ (λ m h. attr-Kept nceq patterns rid_patterns m name value h) ms c;
          at_media = λ val m ms checked q c.
              All-append IsConsistent ms (m ∷ []) c ((line-Kept nceq val).holds m q, tt);
        })
        sdp type s e

  -- The parser ran its check on every section but the last.
  checked_before_last :
      (sdp type : Text) (s : SessionDescription)
      → do_parse nceq patterns rid_patterns sdp type ≡ some s
      → AreCheckedBeforeLast s.medias
  checked_before_last sdp type s e =
      do_parse_induction
        (record {
          at_start = tt;
          at_attr = λ name value ms c. change_last_checked _ ms c;
          at_media = λ val m ms checked q c. checked_append ms m checked c;
        })
        sdp type s e

  -- In every description that the parser accepts, any two stream entries of a media section name the
  -- same track, in each section but the last.
  pub do_parse-AreOnOneTrackBeforeLast :
      (sdp type : Text) (s : SessionDescription)
      → do_parse nceq patterns rid_patterns sdp type ≡ some s
      → AreOnOneTrackBeforeLast s.medias
  do_parse-AreOnOneTrackBeforeLast sdp type s e =
      checked-one_track s.medias (checked_before_last sdp type s e)
