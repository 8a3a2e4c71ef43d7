-- ===== src/Connection/States.antt =====
-- Which descriptions a connection accepts, and what it knows in each state.
use asio_rtc.Common.{
  ◌≡◌, refl, sym, ap, ◌∙◌, inl, inr, true, false, Bool-cases, none, some, List, IfSome, IfSome-some,
  or_else, on_result, nothing, arith,
}
use asio_rtc.Sdp.{Text, SessionDescription}
use asio_rtc.Sdp.Text.{codes, equal}
use asio_rtc.Sdp.Names.{Nceq}
use asio_rtc.Sdp.Text.Laws.{equal_eq}
use asio_rtc.Connection.Signalling.{
  SignalingState, stable, have_local_offer, have_remote_offer, have_local_pranswer,
  have_remote_pranswer, closed, Connection, local_allowed, remote_allowed, is_offer, have_sections,
  set_local_description, find_group, bundles_data, offer_sections, accept_offer, accept_answer,
  set_remote_description, TrackCall,
}

-- Who has described itself in a state, with what, and who leads the connectivity checks.
abbrev pub IsDescribed : SignalingState → Connection → Type 0
IsDescribed stable c = (c.local_desc ≡ none) × (c.remote_desc ≡ none)
IsDescribed have_local_offer c =
    (offer : SessionDescription) × (c.local_desc ≡ some offer)
    × (is_offer offer ≡ true)
    × (c.remote_desc ≡ none)
    × (c.ice_controlling ≡ true)
IsDescribed have_remote_offer c =
    (offer : SessionDescription) × (c.remote_desc ≡ some offer)
    × (is_offer offer ≡ true)
    × (c.local_desc ≡ none)
    × (c.ice_controlling ≡ false)
IsDescribed have_local_pranswer c =
    (offer : SessionDescription) × (answer : SessionDescription) × (c.remote_desc ≡ some offer)
    × (is_offer offer ≡ true)
    × (c.local_desc ≡ some answer)
    × (is_offer answer ≡ false)
    × (c.ice_controlling ≡ false)
IsDescribed have_remote_pranswer c =
    (offer : SessionDescription) × (answer : SessionDescription) × (c.local_desc ≡ some offer)
    × (is_offer offer ≡ true)
    × (c.remote_desc ≡ some answer)
    × (is_offer answer ≡ false)
    × (c.ice_controlling ≡ true)
IsDescribed closed c = ⊥

pub record IsConsistent (c : Connection) : Type 0 where
  pub described : IsDescribed c.signaling_state c

pub answer_no_offer :
    (kind : Text) → equal kind (codes "answer") ≡ true → equal kind (codes "offer") ≡ false
unfolding equal
answer_no_offer kind h =
    ap (λ (k : Text). equal k (codes "offer")) (equal_eq kind (codes "answer") h) ∙ refl

-- The state before an offer or an answer of the local, and of the remote side.
before_local_offer :
    (s : SignalingState) (c : Connection) (kind : Text)
    → local_allowed s kind ≡ true
    → equal kind (codes "offer") ≡ true
    → IsDescribed s c
    → c.remote_desc ≡ none
unfolding local_allowed
before_local_offer stable c kind h o d = d.1
before_local_offer closed c kind h o d = absurd d
before_local_offer have_remote_offer c kind h o d =
    absurd (ground (arith, sym o ∙ answer_no_offer kind h))
before_local_offer have_local_offer c kind h o d = absurd (ground (arith, h))
before_local_offer have_local_pranswer c kind h o d = absurd (ground (arith, h))
before_local_offer have_remote_pranswer c kind h o d = absurd (ground (arith, h))

before_local_answer :
    (s : SignalingState) (c : Connection) (kind : Text)
    → local_allowed s kind ≡ true
    → equal kind (codes "offer") ≡ false
    → IsDescribed s c
    → IsDescribed have_remote_offer c
unfolding local_allowed
before_local_answer stable c kind h o d = absurd (ground (arith, sym h ∙ o))
before_local_answer closed c kind h o d = absurd d
before_local_answer have_remote_offer c kind h o d = d
before_local_answer have_local_offer c kind h o d = absurd (ground (arith, h))
before_local_answer have_local_pranswer c kind h o d = absurd (ground (arith, h))
before_local_answer have_remote_pranswer c kind h o d = absurd (ground (arith, h))

before_remote_offer :
    (s : SignalingState) (c : Connection) (kind : Text)
    → remote_allowed s kind ≡ true
    → equal kind (codes "offer") ≡ true
    → IsDescribed s c
    → c.local_desc ≡ none
unfolding remote_allowed
before_remote_offer stable c kind h o d = d.0
before_remote_offer closed c kind h o d = absurd d
before_remote_offer have_local_offer c kind h o d =
    absurd (ground (arith, sym o ∙ answer_no_offer kind h))
before_remote_offer have_remote_offer c kind h o d = absurd (ground (arith, h))
before_remote_offer have_local_pranswer c kind h o d = absurd (ground (arith, h))
before_remote_offer have_remote_pranswer c kind h o d = absurd (ground (arith, h))

before_remote_answer :
    (s : SignalingState) (c : Connection) (kind : Text)
    → remote_allowed s kind ≡ true
    → equal kind (codes "offer") ≡ false
    → IsDescribed s c
    → IsDescribed have_local_offer c
unfolding remote_allowed
before_remote_answer stable c kind h o d = absurd (ground (arith, sym h ∙ o))
before_remote_answer closed c kind h o d = absurd d
before_remote_answer have_local_offer c kind h o d = d
before_remote_answer have_remote_offer c kind h o d = absurd (ground (arith, h))
before_remote_answer have_local_pranswer c kind h o d = absurd (ground (arith, h))
before_remote_answer have_remote_pranswer c kind h o d = absurd (ground (arith, h))

pub set_local_description-IsConsistent :
    (desc : SessionDescription) (c : Connection)
    → IsConsistent c
    → IfSome IsConsistent (set_local_description desc c)
unfolding set_local_description is_offer
set_local_description-IsConsistent desc c h =
    elim (Bool-cases (local_allowed c.signaling_state desc.sdp_type)) [
      | inr n ↦ rw (set_local_description, n) nothing
      | inl y ↦
          rw (set_local_description, y)
            (elim (Bool-cases (is_offer desc)) [
              | inr o ↦
                  let (offer, known, kind, missing, role) =
                    before_local_answer c.signaling_state c desc.sdp_type y o h.described in
                  rw o
                    (IfSome-some (record { described = (offer, desc, known, kind, refl, o, refl) }))
              | inl o ↦
                  let missing =
                    before_local_offer c.signaling_state c desc.sdp_type y o h.described in
                  rw o (
                    or_else (have_sections desc.medias c.router.transceivers) _ none
                      (IfSome-some (record { described = (desc, refl, o, missing, refl) })) nothing)
            ])
    ]

abbrev pub IsConsistentCall : Connection × List TrackCall → Type 0
IsConsistentCall (c, calls) = IsConsistent c

module _ (nceq : Nceq) where
  pub set_remote_description-IsConsistent :
      (desc : SessionDescription) (c : Connection)
      → IsConsistent c
      → IfSome IsConsistentCall (set_remote_description nceq desc c)
  unfolding set_remote_description is_offer accept_offer accept_answer
  set_remote_description-IsConsistent desc c h =
      elim (Bool-cases (remote_allowed c.signaling_state desc.sdp_type)) [
        | inr n ↦ rw (set_remote_description, n) nothing
        | inl y ↦
            rw (set_remote_description, y)
              (elim (Bool-cases (is_offer desc)) [
                | inr o ↦
                    let (offer, known, kind, missing, role) =
                      before_remote_answer c.signaling_state c desc.sdp_type y o h.described in
                    rw o (
                      IfSome-some
                        (record { described = (offer, desc, known, kind, refl, o, refl) }))
                | inl o ↦
                    let missing =
                      before_remote_offer c.signaling_state c desc.sdp_type y o h.described in
                    rw o (
                      on_result (find_group (codes "BUNDLE") desc.groups) _ (λ bundle.
                        or_else (bundles_data bundle desc.medias) _ none
                          (on_result (offer_sections nceq desc.medias c.router) _ (λ result.
                            IfSome-some (record { described = (desc, refl, o, missing, refl) })))
                          nothing))
              ])
      ]
