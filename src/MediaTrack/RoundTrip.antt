-- ===== src/MediaTrack/RoundTrip.antt =====
-- Reassembly undoes packetization.
use asio_rtc.Common.{
  ℕ, zero, suc, ◌%◌, ◌<◌, ◌≤◌, ◌≡◌, refl, sym, ap, ◌∙◌, true, false, inl, inr, Bool-cases, leb,
  leb→le, List, [], ◌∷◌, ◌++◌, map, length, length-append, length-drop, take, drop,
  take-append-drop, All, arith, append_assoc, append-nil,
}
use asio_rtc.Common.Bits.{bit_and-mask}
use asio_rtc.Rtp.{RtpPacket}
use asio_rtc.H264.{fragments, pack_unit, pack_nal, pack_loop, pack}
use asio_rtc.H264.StartCode.{IsClean, annex_b, pack_loop_done, pack_loop_last, pack_loop_next}
use asio_rtc.H264.Fragments.{fragments_last, fragments_more}
use asio_rtc.MediaTrack.{
  Depacketizer, depacketize, depacketize_all, append_unit, h264_packets_to_annex_b,
}
use asio_rtc.MediaTrack.Units.{
  indicator, indicator_as_sum, finished, collecting, first_fragment, later_fragment, single_unit,
}

-- The loop over the payloads alone.
feed : Depacketizer → List (List ℕ) → Depacketizer
feed s [] = s
feed s (p ∷ ps) = feed (depacketize s p) ps

feed-append : (s : Depacketizer) (ps qs : List (List ℕ)) → feed s (ps ++ qs) ≡ feed (feed s ps) qs
unfolding feed
feed-append s [] qs = refl
feed-append s (p ∷ ps) qs = feed-append (depacketize s p) ps qs

feed_packets :
    (s : Depacketizer) (packets : List RtpPacket)
    → depacketize_all s packets ≡ feed s (map (λ pkt. pkt.payload) packets)
unfolding feed depacketize_all
feed_packets s [] = refl
feed_packets s (pkt ∷ packets) = feed_packets (depacketize s pkt.payload) packets

feed-fragments_later :
    (fuel hdr : ℕ) (out partial rest : List ℕ)
    → length rest ≤ fuel
    → 0 < length rest
    → feed (collecting out partial) (fragments fuel false (indicator hdr) (hdr % 32) rest)
      ≡ finished (append_unit out (partial ++ rest))
unfolding feed
feed-fragments_later zero hdr out partial rest h h' = absurd (omega arith)
feed-fragments_later (suc fuel) hdr out partial rest h h' =
    elim (Bool-cases (leb (length rest) 1198)) [
      | inl e ↦
          rw
            (fragments_last fuel false (indicator hdr) (hdr % 32) rest h'
              (leb→le (length rest) 1198 e))
            (later_fragment true hdr out partial rest)
      | inr e ↦
          let long : 1198 < length rest = ground arith in
          rw (fragments_more fuel false (indicator hdr) (hdr % 32) rest long) (
            rw (feed, later_fragment false hdr out partial (take 1198 rest))
              (feed-fragments_later fuel hdr out (partial ++ take 1198 rest) (drop 1198 rest)
                  (omega (arith, length-drop 1198 rest)) (omega (arith, length-drop 1198 rest))
                ∙ ap (λ t. finished (append_unit out t))
                    (append_assoc partial (take 1198 rest) (drop 1198 rest)
                      ∙ ap (λ t. partial ++ t) (take-append-drop 1198 rest))))
    ]

-- A unit that has a header of a single unit, within the seven bits the indicator keeps.
pub record IsNal (nal : List ℕ) : Type 0 where
  pub hdr : ℕ
  pub body : List ℕ
  pub nal_eq : nal ≡ hdr ∷ body
  pub clean : IsClean nal
  pub forbidden_zero : hdr < 128
  pub type_low : 1 ≤ hdr % 32
  pub type_high : hdr % 32 ≤ 23

feed-fragments :
    (fuel hdr : ℕ) (out body : List ℕ)
    → hdr < 128
    → length body ≤ suc fuel
    → 1198 < length body
    → feed (finished out) (fragments (suc fuel) true (indicator hdr) (hdr % 32) body)
      ≡ finished (append_unit out (hdr ∷ body))
unfolding feed
feed-fragments fuel hdr out body h enough long =
    rw (fragments_more fuel true (indicator hdr) (hdr % 32) body long) (
      rw (feed, first_fragment (finished out) false hdr (take 1198 body) h)
        (feed-fragments_later fuel hdr out (hdr ∷ take 1198 body) (drop 1198 body)
            (omega (arith, length-drop 1198 body)) (omega (arith, length-drop 1198 body))
          ∙ ap (λ t. finished (append_unit out (hdr ∷ t))) (take-append-drop 1198 body)))

feed-pack_unit :
    (hdr : ℕ) (out body : List ℕ)
    → hdr < 128
    → 1 ≤ hdr % 32
    → hdr % 32 ≤ 23
    → feed (finished out) (pack_unit hdr body) ≡ finished (append_unit out (hdr ∷ body))
unfolding feed pack_unit
feed-pack_unit hdr out [] h h1 h2 = single_unit (finished out) hdr [] h1 h2
feed-pack_unit hdr out (b ∷ bs) h h1 h2 = elim (Bool-cases (leb (suc (length (b ∷ bs))) 1200)) [
  | inl e ↦ rw e (single_unit (finished out) hdr (b ∷ bs) h1 h2)
  | inr e ↦
      rw (e, indicator_as_sum hdr, bit_and-mask 5 hdr)
        (feed-fragments (length bs) hdr out (b ∷ bs) h (omega arith) (ground arith))
]

feed-pack_nal :
    (nal out : List ℕ)
    → IsNal nal
    → feed (finished out) (pack_nal nal) ≡ finished (append_unit out nal)
unfolding pack_nal
feed-pack_nal nal out v =
    rw (v.nal_eq) (feed-pack_unit v.hdr out v.body v.forbidden_zero v.type_low v.type_high)

-- The payloads of all the units in order.
pack_all : List (List ℕ) → List (List ℕ)
pack_all [] = []
pack_all (nal ∷ nals) = pack_nal nal ++ pack_all nals

pack_loop-annex_b :
    (fuel : ℕ) (nals : List (List ℕ))
    → length nals ≤ fuel
    → All IsNal nals
    → pack_loop fuel (annex_b nals) ≡ pack_all nals
unfolding pack_all annex_b
pack_loop-annex_b fuel [] h v = pack_loop_done fuel
pack_loop-annex_b zero (nal ∷ nals) h v = absurd (omega arith)
pack_loop-annex_b (suc fuel) (nal ∷ []) h v =
    ap (λ t. pack_loop (suc fuel) (0 ∷ 0 ∷ 1 ∷ t)) (append-nil nal)
    ∙ (pack_loop_last fuel nal v.0.clean ∙ sym (append-nil (pack_nal nal)))
pack_loop-annex_b (suc fuel) (nal ∷ next ∷ nals) h v =
    pack_loop_next fuel nal (next ++ annex_b nals) v.0.clean
    ∙ ap (λ t. pack_nal nal ++ t) (pack_loop-annex_b fuel (next ∷ nals) (omega arith) v.1)

feed-pack_all :
    (nals : List (List ℕ)) (out : List ℕ)
    → All IsNal nals
    → feed (finished out) (pack_all nals) ≡ finished (out ++ annex_b nals)
unfolding pack_all annex_b feed
feed-pack_all [] out v = rw (append-nil out)
feed-pack_all (nal ∷ nals) out v =
    feed-append (finished out) (pack_nal nal) (pack_all nals)
    ∙ (ap (λ s. feed s (pack_all nals)) (feed-pack_nal nal out v.0)
        ∙ (feed-pack_all nals (append_unit out nal) v.1
            ∙ ap finished (append_assoc out (0 ∷ 0 ∷ 1 ∷ nal) (annex_b nals))))

length-annex_b : (nals : List (List ℕ)) → length nals ≤ length (annex_b nals)
unfolding annex_b
length-annex_b [] = omega arith
length-annex_b (nal ∷ nals) = omega (arith, length-append nal (annex_b nals), length-annex_b nals)

-- For NAL units without a start code inside, that end in a byte other than zero and have a header
-- below 128 of a type from 1 to 23: packets whose payloads are those that `pack` makes of the
-- units' Annex-B stream are put together to the same stream, whatever the size of a unit.
pub h264_packets_to_annex_b-pack :
    (nals : List (List ℕ)) (timestamp : ℕ) (packets : List RtpPacket)
    → All IsNal nals
    → map (λ pkt. pkt.payload) packets ≡ (pack (annex_b nals) timestamp).0
    → h264_packets_to_annex_b packets ≡ annex_b nals
unfolding h264_packets_to_annex_b pack
h264_packets_to_annex_b-pack nals timestamp packets v e =
    ap (λ s. s.out)
      (feed_packets (finished []) packets
        ∙ (ap (feed (finished []))
              (e ∙ pack_loop-annex_b (length (annex_b nals)) nals (length-annex_b nals) v)
            ∙ feed-pack_all nals [] v))
