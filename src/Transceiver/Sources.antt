-- ===== src/Transceiver/Sources.antt =====
-- The set of received sources: what `create_ssrc_context` changes.
use asio_rtc.Common.{
  ℕ, ◌≡◌, refl, ap, IfSome, IfSome-some, nothing, inl, inr, false, ltb, ◌==◌, ==_iff, Bool-cases,
  Option-cases, none, some, List, [], ◌∷◌, arith,
}
use asio_rtc.Stats.{SsrcContext, ssrc_context, reset_stats}
use asio_rtc.Transceiver.{
  RtpReceiver, SsrcSet, find_ssrc, insert_ssrc, find_context, create_ssrc_context,
}

find_ssrc-insert_self :
    (owner : ℕ) (c : SsrcContext) (set : SsrcSet)
    → find_ssrc c.ssrc set ≡ none
    → find_ssrc c.ssrc (insert_ssrc owner c set) ≡ some (owner, c)
unfolding find_ssrc insert_ssrc
find_ssrc-insert_self owner c [] h = rw ((==_iff c.ssrc c.ssrc).1 refl) refl
find_ssrc-insert_self owner c ((o, x) ∷ set) h = elim (Bool-cases (x.ssrc == c.ssrc)) [
  | inl e ↦ absurd (ground (arith, rw (find_ssrc, e) at h))
  | inr e ↦ elim (Bool-cases (ltb x.ssrc c.ssrc)) [
    | inl l ↦
        rw (insert_ssrc, l)
          (rw (find_ssrc, e) (find_ssrc-insert_self owner c set (rw (find_ssrc, e) at h)))
    | inr l ↦ rw (insert_ssrc, l) (rw (find_ssrc, (==_iff c.ssrc c.ssrc).1 refl) refl)
  ]
]

find_ssrc-insert_other :
    (owner : ℕ) (c : SsrcContext) (set : SsrcSet) (other : ℕ)
    → c.ssrc == other ≡ false
    → find_ssrc other (insert_ssrc owner c set) ≡ find_ssrc other set
unfolding find_ssrc insert_ssrc
find_ssrc-insert_other owner c [] other n = rw n refl
find_ssrc-insert_other owner c ((o, x) ∷ set) other n = elim (Bool-cases (ltb x.ssrc c.ssrc)) [
  | inr l ↦ rw (insert_ssrc, l) (rw (find_ssrc, n) refl)
  | inl l ↦
      rw (insert_ssrc, l)
        (elim (Bool-cases (x.ssrc == other)) [
          | inl e ↦ rw (find_ssrc, e) refl
          | inr e ↦ rw (find_ssrc, e) (find_ssrc-insert_other owner c set other n)
        ])
]

-- A context that is reset is as a new one.
reset_context :
    (ssrc : ℕ) (ssrcs : List SsrcContext)
    → IfSome (λ ctx. reset_stats ctx ≡ ssrc_context ssrc) (find_context ssrc ssrcs)
unfolding find_context reset_stats
reset_context ssrc [] = nothing
reset_context ssrc (c ∷ ssrcs) = elim (Bool-cases (c.ssrc == ssrc)) [
  | inl e ↦ rw (find_context, e) (IfSome-some (ap ssrc_context ((==_iff c.ssrc ssrc).0 e)))
  | inr e ↦ rw (find_context, e) (reset_context ssrc ssrcs)
]

-- Afterwards the set has the source: with the context that it had, whoever received it, or else with
-- a new one of this receiver. Every other source is as it was.
pub find_ssrc-create_ssrc_context :
    (owner ssrc : ℕ) (r : RtpReceiver) (set : SsrcSet) (other : ℕ)
    → ssrc == other ≡ false
    → (find_ssrc ssrc (create_ssrc_context owner ssrc (r, set)).1 ≡ elim (find_ssrc ssrc set) [
      | none ↦ some (owner, ssrc_context ssrc)
      | some found ↦ some found
    ])
      × (find_ssrc other (create_ssrc_context owner ssrc (r, set)).1 ≡ find_ssrc other set)
unfolding create_ssrc_context ssrc_context
find_ssrc-create_ssrc_context owner ssrc r set other n = elim (Option-cases (find_ssrc ssrc set)) [
  | inl e ↦ elim (Option-cases (find_context ssrc r.ssrcs)) [
    | inl f ↦
        rw (create_ssrc_context, e, f)
          (
            find_ssrc-insert_self owner (ssrc_context ssrc) set e,
            find_ssrc-insert_other owner (ssrc_context ssrc) set other n,
          )
    | inr (ctx, f) ↦
        rw (create_ssrc_context, e, f, (reset_context ssrc r.ssrcs).holds ctx f)
          (
            find_ssrc-insert_self owner (ssrc_context ssrc) set e,
            find_ssrc-insert_other owner (ssrc_context ssrc) set other n,
          )
  ]
  | inr (found, e) ↦ rw (create_ssrc_context, e) (e, refl)
]
