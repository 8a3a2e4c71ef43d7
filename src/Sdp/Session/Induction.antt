-- ===== src/Sdp/Session/Induction.antt =====
-- What holds of the media sections of every description that is accepted: an induction over the lines.
use asio_rtc.Common.{
  ℕ, true, false, ◌==◌, some, List, [], ◌∷◌, ◌++◌, ◌≡◌, inl, inr, Option-cases, Bool-cases, itself,
  IfSome, IfSome-some, or_else, on_result, on_kept, nothing,
}
use asio_rtc.Sdp.{Text, SdpMedia, SessionDescription}
use asio_rtc.Sdp.Text.{equal, trim, parse_line_type_value, split_lines, codes}
use asio_rtc.Sdp.Number.{parse_uint8}
use asio_rtc.Sdp.Names.{Nceq, parse_sdp_direction}
use asio_rtc.Sdp.Attribute.{Patterns}
use asio_rtc.Sdp.Simulcast.{RidPatterns}
use asio_rtc.Sdp.Media.{parse_media_line}
use asio_rtc.Sdp.Media.Attr.{apply_media_attr}
use asio_rtc.Sdp.Session.{
  set_version, new_session, from_lines, change_last, last_checked, Parsing,
  apply_other_session_attr, apply_session_attr, media_attr_line, media_step, session_step,
  open_media, parse_step, parse_line, parse_lines, do_parse,
}

-- A property of the list of media sections that an attribute of the last one keeps, and a new one.
pub record IsInductive (nceq : Nceq) (patterns : Patterns) (rid_patterns : RidPatterns)
    (Q : List SdpMedia → Type 0) : Type 0 where
  pub at_start : Q []
  pub at_attr :
      (name value : Text) (ms : List SdpMedia)
      → Q ms
      → IfSome Q (change_last (λ m. apply_media_attr nceq patterns rid_patterns m name value) ms)
  pub at_media :
      (val : Text) (m : SdpMedia) (ms : List SdpMedia)
      → last_checked ms ≡ true
      → parse_media_line nceq val ≡ some m
      → Q ms
      → Q (ms ++ m ∷ [])

module _ {nceq : Nceq} {patterns : Patterns} {rid_patterns : RidPatterns}
    {Q : List SdpMedia → Type 0} (inductive : IsInductive nceq patterns rid_patterns Q) where
  abbrev Holds : SessionDescription → Type 0
  Holds s = Q s.medias

  abbrev HoldsIn : Parsing → Type 0
  HoldsIn p = Q p.session.medias

  version_kept : (s : SessionDescription) (val : Text) → Holds s → Holds (set_version s val)
  unfolding set_version
  version_kept s val c = elim (Option-cases (parse_uint8 val)) [
    | inl e ↦ rw (set_version, e) c
    | inr (d, e) ↦ rw (set_version, e) c
  ]

  other_session_kept :
      (s : SessionDescription) (name value : Text)
      → Holds s
      → IfSome Holds (apply_other_session_attr nceq patterns rid_patterns s name value)
  unfolding apply_other_session_attr
  other_session_kept s name value c = elim (Option-cases (parse_sdp_direction nceq name)) [
    | inl e ↦ rw (apply_other_session_attr, e) (IfSome-some c)
    | inr (d, e) ↦ rw (apply_other_session_attr, e) (IfSome-some c)
  ]

  session_attr_kept :
      (s : SessionDescription) (name value : Text)
      → Holds s
      → IfSome Holds (apply_session_attr nceq patterns rid_patterns s name value)
  unfolding apply_session_attr
  session_attr_kept s name value c =
      or_else (equal name (codes "group")) _ _ (on_result _ _ (λ x. IfSome-some c)) (
        or_else (equal name (codes "ice-ufrag")) _ _ (IfSome-some c) (
          or_else (equal name (codes "ice-pwd")) _ _ (IfSome-some c) (
            or_else (equal name (codes "ice-options")) _ _ (IfSome-some c) (
              or_else (equal name (codes "ice-lite")) _ _ (IfSome-some c) (
                or_else (equal name (codes "candidate")) _ _ (IfSome-some c) (
                  or_else (equal name (codes "fingerprint")) _ _
                    (on_result _ _ (λ x. IfSome-some c))
                    (or_else (equal name (codes "setup")) _ _ (on_result _ _ (λ x. IfSome-some c)) (
                      or_else (equal name (codes "extmap-allow-mixed")) _ _ (IfSome-some c) (
                        or_else (equal name (codes "msid-semantic")) _ _
                          (on_result _ _ (λ x. IfSome-some c))
                          (other_session_kept s name value c))))))))))

  session_step_kept :
      (s : SessionDescription) (type : ℕ) (val : Text)
      → Holds s
      → IfSome Holds (session_step nceq patterns rid_patterns s type val)
  unfolding session_step
  session_step_kept s type val c = or_else (type == 118) _ _ (IfSome-some (version_kept s val c)) (
      or_else (type == 111) _ _ (IfSome-some c) (
        or_else (type == 115) _ _ (IfSome-some c) (
          or_else (type == 117) _ _ (IfSome-some c) (
            or_else (type == 101) _ _ (IfSome-some c) (
              or_else (type == 112) _ _ (IfSome-some c) (
                or_else (type == 98) _ _ (on_result _ _ (λ x. IfSome-some c))
                  (or_else (type == 97) _ _ (session_attr_kept s _ _ c) (IfSome-some c))))))))

  media_step_kept :
      (s : SessionDescription) (type : ℕ) (val : Text)
      → Holds s
      → IfSome Holds (media_step nceq patterns rid_patterns s type val)
  unfolding media_step media_attr_line
  media_step_kept s type val c =
      or_else (type == 97) _ _
        (on_kept (change_last _ s.medias) _ (inductive.at_attr _ _ s.medias c)
          (λ ms h. IfSome-some h))
        (IfSome-some c)

  open_media_kept :
      (s : SessionDescription) (val : Text)
      → Holds s
      → IfSome Holds (open_media nceq patterns rid_patterns s val)
  unfolding open_media
  open_media_kept s val c = elim (Bool-cases (last_checked s.medias)) [
    | inr failed ↦ rw failed nothing
    | inl checked ↦ rw checked (
        on_kept (parse_media_line nceq val) _ (itself (parse_media_line nceq val))
          (λ m e. IfSome-some (inductive.at_media val m s.medias checked e c)))
  ]

  parse_step_kept :
      (p : Parsing) (type : ℕ) (val : Text)
      → HoldsIn p
      → IfSome HoldsIn (parse_step nceq patterns rid_patterns p type val)
  unfolding parse_step
  parse_step_kept p type val c =
      or_else (type == 109) _ _
        (on_kept (open_media nceq patterns rid_patterns p.session val) _
          (open_media_kept p.session val c) (λ s h. IfSome-some h))
        (or_else p.in_media _ _
          (on_kept (media_step nceq patterns rid_patterns p.session type val) _
            (media_step_kept p.session type val c) (λ s h. IfSome-some h))
          (on_kept (session_step nceq patterns rid_patterns p.session type val) _
            (session_step_kept p.session type val c) (λ s h. IfSome-some h)))

  parse_line_kept :
      (p : Parsing) (l : Text)
      → HoldsIn p
      → IfSome HoldsIn (parse_line nceq patterns rid_patterns p l)
  unfolding parse_line
  parse_line_kept p [] c = IfSome-some c
  parse_line_kept p (x ∷ l) c =
      on_result (parse_line_type_value (x ∷ l)) _ (λ parts. parse_step_kept p parts.0 parts.1 c)

  parse_lines_kept :
      (lines : List Text) (p : Parsing)
      → HoldsIn p
      → IfSome HoldsIn (parse_lines nceq patterns rid_patterns p lines)
  unfolding parse_lines parse_line
  parse_lines_kept [] p c = IfSome-some c
  parse_lines_kept (l ∷ lines) p c =
      on_kept (parse_line nceq patterns rid_patterns p (trim l)) _ (parse_line_kept p (trim l) c)
        (λ q h. parse_lines_kept lines q h)

  parsed_kept :
      (lines : List Text) (type : Text)
      → IfSome Holds (from_lines nceq patterns rid_patterns lines type)
  unfolding from_lines
  parsed_kept [] type = nothing
  parsed_kept (l ∷ lines) type =
      on_kept (parse_lines nceq patterns rid_patterns _ (l ∷ lines)) _
        (parse_lines_kept (l ∷ lines) (record { session = new_session type; in_media = false })
          inductive.at_start)
        (λ q h. IfSome-some h)

  pub do_parse_induction :
      (sdp type : Text) (s : SessionDescription)
      → do_parse nceq patterns rid_patterns sdp type ≡ some s
      → Q s.medias
  unfolding do_parse
  do_parse_induction sdp type s e = (parsed_kept (split_lines sdp) type).holds s e
