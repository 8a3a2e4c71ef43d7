-- ===== src/Sdp/Session/Lines.antt =====
-- A media section's printed attributes, read line by line.
use asio_rtc.Common.{◌≡◌, refl, true, Option, some, List, [], ◌∷◌, ◌++◌, map, All}
use asio_rtc.Sdp.{SdpMedia, SessionDescription}
use asio_rtc.Sdp.Text.{trim, split_attr, parse_line_type_value}
use asio_rtc.Sdp.Text.Laws.{split_first-append, EndsWell-append, trim-line}
use asio_rtc.Sdp.Names.{Nceq, IsCaseless}
use asio_rtc.Sdp.Attribute.{Patterns}
use asio_rtc.Sdp.Simulcast.{RidPatterns}
use asio_rtc.Sdp.Media.Attr.{apply_media_attr}
use asio_rtc.Sdp.Media.Printed.{Attr, attr_text, IsPrintable, with_attr, IsTaken, printed-IsTaken}
use asio_rtc.Sdp.Media.Appended.{append_attr, IsNew, with_attr-new}
use asio_rtc.Sdp.Session.{
  change_last, Parsing, media_attr_line, media_step, parse_step, parse_line, parse_lines,
}

-- The parser inside a media section, with the sections before it.
abbrev pub inside : SessionDescription → List SdpMedia → SdpMedia → Parsing
inside s before m = record { session = record s { medias = before ++ m ∷ [] }; in_media = true }

unfoldable pub append_attrs : List Attr → SdpMedia → SdpMedia
append_attrs [] m = m
append_attrs (a ∷ attrs) m = append_attrs attrs (append_attr a m)

-- Each attribute is new where its turn comes.
unfoldable pub AreNew : List Attr → SdpMedia → Type 0
AreNew [] m = Unit
AreNew (a ∷ attrs) m = IsNew a m × AreNew attrs (append_attr a m)

change_last-append :
    (f : SdpMedia → Option SdpMedia) (before : List SdpMedia) (m m' : SdpMedia)
    → f m ≡ some m'
    → change_last f (before ++ m ∷ []) ≡ some (before ++ m' ∷ [])
unfolding change_last
change_last-append f [] m m' e = rw e refl
change_last-append f (b ∷ []) m m' e = rw e refl
change_last-append f (b ∷ c ∷ before) m m' e = rw (change_last-append f (c ∷ before) m m' e) refl

module _ {nceq : Nceq} (patterns : Patterns) (rid_patterns : RidPatterns) where
  attr_line :
      (s : SessionDescription) (before : List SdpMedia) (m : SdpMedia) (a : Attr)
      (t : IsTaken nceq patterns rid_patterns a m)
      → media_attr_line nceq patterns rid_patterns
          (record s { medias = before ++ m ∷ [] })
          (t.name ++ 58 ∷ t.value)
        ≡ some (record s { medias = before ++ with_attr a m ∷ [] })
  unfolding media_attr_line split_attr
  attr_line s before m a t =
      rw
        (
          media_attr_line,
          split_attr,
          split_first-append 58 t.name t.value t.no_colon,
          change_last-append (λ m'. apply_media_attr nceq patterns rid_patterns m' t.name t.value)
              before m (with_attr a m) t.taken,
        )
        refl

  taken_line :
      (s : SessionDescription) (before : List SdpMedia) (m : SdpMedia) (a : Attr)
      → IsTaken nceq patterns rid_patterns a m
      → parse_line nceq patterns rid_patterns (inside s before m) (trim (attr_text a))
        ≡ some (inside s before (with_attr a m))
  unfolding parse_line parse_line_type_value parse_step media_step
  taken_line s before m a t =
      rw
        (
          t.text_lem,
          trim-line 97 (61 ∷ (t.name ++ 58 ∷ t.value)) refl
              (EndsWell-append (61 ∷ t.name) (EndsWell-append (58 ∷ []) t.ends)),
          attr_line s before m a t,
        )
        refl

  module _ (ci : IsCaseless nceq) where
    -- The lines that are printed for attributes of a media section, in any order and number, are all
    -- read, and put the attributes that they were printed from behind those of the section, in that
    -- order, or in the place of the one that it had, and change nothing else. The attributes are
    -- codecs without parameters, feedback messages, header extensions, sources, fingerprints,
    -- streams, the role, the section's name, the user's name and password, and the port and the size
    -- of data channels. Their numbers fit their types, names are words, and other text has no blank
    -- at its ends; no codec or feedback message comes again for a payload type.
    pub parse_lines-attr_text :
        (attrs : List Attr) (s : SessionDescription) (before : List SdpMedia) (m : SdpMedia)
        → All IsPrintable attrs
        → AreNew attrs m
        → parse_lines nceq patterns rid_patterns (inside s before m) (map attr_text attrs)
          ≡ some (inside s before (append_attrs attrs m))
    unfolding parse_lines append_attrs AreNew
    parse_lines-attr_text [] s before m h n = refl
    parse_lines-attr_text (a ∷ attrs) s before m h n =
        rw
          (
            taken_line s before m a (printed-IsTaken ci patterns rid_patterns a m h.0),
            with_attr-new a m h.0 n.0,
          )
          (parse_lines-attr_text attrs s before (append_attr a m) h.1 n.1)
