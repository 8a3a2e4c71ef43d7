-- ===== src/Connection/Accepted.antt =====
-- The descriptions that a connection accepts, one after the other.
use asio_rtc.Common.{
  ℕ, suc, ◌+◌, ◌≤◌, ◌≡◌, refl, sym, ◌∙◌, inl, inr, true, false, Bool-cases, Option, none, some,
  ◌>>=◌, List, [], ◌∷◌, length, IfSome, IfSome-some, or_else, on_result, on_kept, nothing, arith,
}
use asio_rtc.Sdp.{Text, SessionDescription}
use asio_rtc.Sdp.Text.{codes, equal}
use asio_rtc.Sdp.Names.{Nceq}
use asio_rtc.Connection.Signalling.{
  SignalingState, stable, have_local_offer, have_remote_offer, have_local_pranswer,
  have_remote_pranswer, closed, Connection, local_allowed, remote_allowed, is_offer, have_sections,
  set_local_description, find_group, bundles_data, offer_sections, accept_offer, accept_answer,
  set_remote_description, TrackCall,
}
use asio_rtc.Connection.States.{
  IsConsistent, IsConsistentCall, answer_no_offer, set_local_description-IsConsistent,
  set_remote_description-IsConsistent,
}

-- Which side a description is set for.
pub data Call : Type 0 where
  local : SessionDescription → Call
  remote : SessionDescription → Call

unfoldable pub connection_of : Connection × List TrackCall → Connection
connection_of (c, calls) = c

module _ (nceq : Nceq) where
  -- A call that is accepted.
  unfoldable pub call : Call → Connection → Option Connection
  call (local desc) c = set_local_description desc c
  call (remote desc) c = do r ← set_remote_description nceq desc c; some (connection_of r)

  -- Calls that are all accepted.
  unfoldable pub calls : List Call → Connection → Option Connection
  calls [] c = some c
  calls (k ∷ ks) c = do c' ← call k c; calls ks c'

  call-IsConsistent : (k : Call) (c : Connection) → IsConsistent c → IfSome IsConsistent (call k c)
  unfolding call connection_of
  call-IsConsistent (local desc) c h = set_local_description-IsConsistent desc c h
  call-IsConsistent (remote desc) c h =
      on_kept {Q = IsConsistentCall} (set_remote_description nceq desc c) _
        (set_remote_description-IsConsistent nceq desc c h) (λ r k. IfSome-some k)

  -- Whatever descriptions are accepted, a connection knows in every state exactly those that the state
  -- stands for, an offer of the one side and an answer of the other, and the side that made the
  -- offer leads the connectivity checks.
  pub calls-IsConsistent :
      (ks : List Call) (c : Connection) → IsConsistent c → IfSome IsConsistent (calls ks c)
  unfolding calls
  calls-IsConsistent [] c h = IfSome-some h
  calls-IsConsistent (k ∷ ks) c h =
      on_kept {Q = IsConsistent} (call k c) _ (call-IsConsistent k c h)
        (λ c' h'. calls-IsConsistent ks c' h')

-- How many descriptions a state has behind it.
unfoldable pub descriptions : SignalingState → ℕ
descriptions stable = 0
descriptions closed = 0
descriptions have_local_offer = 1
descriptions have_remote_offer = 1
descriptions have_local_pranswer = 2
descriptions have_remote_pranswer = 2

descriptions_few : (s : SignalingState) → descriptions s ≤ 2
unfolding descriptions
descriptions_few stable = omega arith
descriptions_few closed = omega arith
descriptions_few have_local_offer = omega arith
descriptions_few have_remote_offer = omega arith
descriptions_few have_local_pranswer = omega arith
descriptions_few have_remote_pranswer = omega arith

local_offer_first :
    (s : SignalingState) (kind : Text)
    → local_allowed s kind ≡ true
    → equal kind (codes "offer") ≡ true
    → descriptions s ≡ 0
unfolding local_allowed descriptions
local_offer_first stable kind h o = refl
local_offer_first closed kind h o = refl
local_offer_first have_remote_offer kind h o =
    absurd (ground (arith, sym o ∙ answer_no_offer kind h))
local_offer_first have_local_offer kind h o = absurd (ground (arith, h))
local_offer_first have_local_pranswer kind h o = absurd (ground (arith, h))
local_offer_first have_remote_pranswer kind h o = absurd (ground (arith, h))

local_answer_second :
    (s : SignalingState) (kind : Text)
    → local_allowed s kind ≡ true
    → equal kind (codes "offer") ≡ false
    → descriptions s ≡ 1
unfolding local_allowed descriptions
local_answer_second stable kind h o = absurd (ground (arith, sym h ∙ o))
local_answer_second closed kind h o = absurd (ground (arith, sym h ∙ o))
local_answer_second have_remote_offer kind h o = refl
local_answer_second have_local_offer kind h o = absurd (ground (arith, h))
local_answer_second have_local_pranswer kind h o = absurd (ground (arith, h))
local_answer_second have_remote_pranswer kind h o = absurd (ground (arith, h))

remote_offer_first :
    (s : SignalingState) (kind : Text)
    → remote_allowed s kind ≡ true
    → equal kind (codes "offer") ≡ true
    → descriptions s ≡ 0
unfolding remote_allowed descriptions
remote_offer_first stable kind h o = refl
remote_offer_first closed kind h o = refl
remote_offer_first have_local_offer kind h o =
    absurd (ground (arith, sym o ∙ answer_no_offer kind h))
remote_offer_first have_remote_offer kind h o = absurd (ground (arith, h))
remote_offer_first have_local_pranswer kind h o = absurd (ground (arith, h))
remote_offer_first have_remote_pranswer kind h o = absurd (ground (arith, h))

remote_answer_second :
    (s : SignalingState) (kind : Text)
    → remote_allowed s kind ≡ true
    → equal kind (codes "offer") ≡ false
    → descriptions s ≡ 1
unfolding remote_allowed descriptions
remote_answer_second stable kind h o = absurd (ground (arith, sym h ∙ o))
remote_answer_second closed kind h o = absurd (ground (arith, sym h ∙ o))
remote_answer_second have_local_offer kind h o = refl
remote_answer_second have_remote_offer kind h o = absurd (ground (arith, h))
remote_answer_second have_local_pranswer kind h o = absurd (ground (arith, h))
remote_answer_second have_remote_pranswer kind h o = absurd (ground (arith, h))

-- One more description than before.
abbrev IsNext : Connection → Connection → Type 0
IsNext c c' = descriptions c'.signaling_state ≡ suc (descriptions c.signaling_state)

set_local_description-IsNext :
    (desc : SessionDescription) (c : Connection) → IfSome (IsNext c) (set_local_description desc c)
unfolding set_local_description is_offer descriptions
set_local_description-IsNext desc c =
    elim (Bool-cases (local_allowed c.signaling_state desc.sdp_type)) [
      | inr n ↦ rw (set_local_description, n) nothing
      | inl y ↦
          rw (set_local_description, y)
            (elim (Bool-cases (is_offer desc)) [
              | inr o ↦ rw o (
                  IfSome-some
                    (omega (arith, local_answer_second c.signaling_state desc.sdp_type y o)))
              | inl o ↦ rw o (
                  or_else (have_sections desc.medias c.router.transceivers) _ none
                    (IfSome-some
                      (omega (arith, local_offer_first c.signaling_state desc.sdp_type y o)))
                    nothing)
            ])
    ]

module _ (nceq : Nceq) where
  set_remote_description-IsNext :
      (desc : SessionDescription) (c : Connection)
      → IfSome
          (λ (r : Connection × List TrackCall). IsNext c r.0)
          (set_remote_description nceq desc c)
  unfolding set_remote_description is_offer accept_offer accept_answer descriptions
  set_remote_description-IsNext desc c =
      elim (Bool-cases (remote_allowed c.signaling_state desc.sdp_type)) [
        | inr n ↦ rw (set_remote_description, n) nothing
        | inl y ↦
            rw (set_remote_description, y)
              (elim (Bool-cases (is_offer desc)) [
                | inr o ↦ rw o (
                    IfSome-some
                      (omega (arith, remote_answer_second c.signaling_state desc.sdp_type y o)))
                | inl o ↦ rw o (
                    on_result (find_group (codes "BUNDLE") desc.groups) _ (λ bundle.
                      or_else (bundles_data bundle desc.medias) _ none
                        (on_result (offer_sections nceq desc.medias c.router) _ (λ result.
                          IfSome-some (
                            omega (arith, remote_offer_first c.signaling_state desc.sdp_type y o))))
                        nothing))
              ])
      ]

  call-IsNext : (k : Call) (c : Connection) → IfSome (IsNext c) (call nceq k c)
  unfolding call connection_of
  call-IsNext (local desc) c = set_local_description-IsNext desc c
  call-IsNext (remote desc) c =
      on_kept {Q = λ (r : Connection × List TrackCall). IsNext c r.0}
        (set_remote_description nceq desc c) _ (set_remote_description-IsNext desc c)
        (λ r k. IfSome-some k)

  calls_counted :
      (ks : List Call) (c : Connection)
      → IfSome
          (λ (c' : Connection).
            descriptions c'.signaling_state ≡ descriptions c.signaling_state + length ks)
          (calls nceq ks c)
  unfolding calls
  calls_counted [] c = IfSome-some (omega arith)
  calls_counted (k ∷ ks) c =
      on_kept {Q = IsNext c} (call nceq k c) _ (call-IsNext k c)
        (λ c' next. later c' next (calls_counted ks c'))
    where
      later :
          (c' : Connection)
          → IsNext c c'
          → IfSome
              (λ (c'' : Connection).
                descriptions c''.signaling_state ≡ descriptions c'.signaling_state + length ks)
              (calls nceq ks c')
          → IfSome
              (λ (c'' : Connection).
                descriptions c''.signaling_state
                ≡ descriptions c.signaling_state + length {A = Call} (k ∷ ks))
              (calls nceq ks c')
      later c' next h = record { holds = λ c'' e. omega (arith, h.holds c'' e, next) }

  -- A connection accepts two descriptions at most, whatever is set, for either side, in any order:
  -- after an offer and an answer every further one is refused.
  pub calls_few :
      (ks : List Call) (c : Connection)
      → IfSome (λ (c' : Connection). length ks ≤ 2) (calls nceq ks c)
  calls_few ks c = record {
    holds =
        λ c' e. omega (arith, (calls_counted ks c).holds c' e, descriptions_few c'.signaling_state);
  }
