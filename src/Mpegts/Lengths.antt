-- ===== src/Mpegts/Lengths.antt =====
-- What `find_sync` finds.
use asio_rtc.Common.{
  ℕ, zero, suc, ◌+◌, ◌-◌, ◌≤◌, ◌<◌, ◌≡◌, refl, sym, ◌∙◌, ◌⊎◌, inl, inr, Bool, true, false, ltb, leb,
  ◌==◌, Bool-cases, Option-cases, some, List, [], ◌∷◌, length, drop, byte_at, length-drop, ==_iff,
  IfSome, IfSome-some, nothing, on_kept, arith,
}
use native.Mathlib.Nat.{zero-add, suc-add}
use asio_rtc.Mpegts.{ts_packet_size}
use asio_rtc.Mpegts.Sync.{sync_byte, find_sync_byte, find_sync}

-- A packet stands at the offset, and another one behind it unless the buffer ends there.
pub record IsPacket (buffer : List ℕ) (offset : ℕ) : Type 0 where
  pub whole : offset + ts_packet_size ≤ length buffer
  pub synced : byte_at buffer offset ≡ sync_byte
  pub next_lem :
      (offset + ts_packet_size ≡ length buffer)
      ⊎ (byte_at buffer (offset + ts_packet_size) ≡ sync_byte)

-- Either a packet of the same buffer is found, at the offset or behind it, or less than a packet is
-- kept, from its start.
pub data IsFind (buffer : List ℕ) (offset : ℕ) (r : Bool × List ℕ × ℕ) : Type 0 where
  found : r.0 ≡ true → r.1 ≡ buffer → offset ≤ r.2 → IsPacket buffer r.2 → IsFind buffer offset r
  kept : r.0 ≡ false → length r.1 < ts_packet_size → r.2 ≡ 0 → IsFind buffer offset r

abbrev IsPlace : List ℕ → ℕ → Type 0
IsPlace l k = (k < length l) × (byte_at l k ≡ sync_byte)

find_sync_byte_lem : (l : List ℕ) → IfSome (IsPlace l) (find_sync_byte l)
unfolding find_sync_byte
find_sync_byte_lem [] = nothing
find_sync_byte_lem (b ∷ rest) = elim (Bool-cases (b == sync_byte)) [
  | inl e ↦ rw e (IfSome-some (omega arith, (==_iff b sync_byte).0 e))
  | inr e ↦ rw e (
      on_kept {Q = IsPlace rest} (find_sync_byte rest) (λ k. some (suc k)) (find_sync_byte_lem rest)
        (λ k h. IfSome-some (omega (arith, h.0), h.1)))
]

byte_at-drop : (n k : ℕ) (l : List ℕ) → byte_at (drop n l) k ≡ byte_at l (n + k)
byte_at-drop zero k l = rw zero-add refl
byte_at-drop (suc n) k [] = refl
byte_at-drop (suc n) k (x ∷ l) = rw suc-add (byte_at-drop n k l)

-- A search from behind the offset is one from the offset.
weaken :
    (buffer : List ℕ) (a b : ℕ) (r : Bool × List ℕ × ℕ)
    → a ≤ b
    → IsFind buffer b r
    → IsFind buffer a r
weaken buffer a b r h (found t e after p) = found t e (omega arith) p
weaken buffer a b r h (kept f s z) = kept f s z

-- The search ends, with a round for each byte as fuel: either a packet stands at the new offset, as
-- far as the byte behind it tells, or less than a packet of input is kept.
pub find_sync-IsFind :
    (fuel : ℕ) (buffer : List ℕ) (offset : ℕ)
    → offset ≤ length buffer
    → length buffer < fuel + offset
    → IsFind buffer offset (find_sync fuel buffer offset)
unfolding find_sync
find_sync-IsFind zero buffer offset h f = absurd (omega arith)
find_sync-IsFind (suc fuel) buffer offset h f =
    elim (Bool-cases (leb (offset + ts_packet_size) (length buffer))) [
      | inr short ↦
          rw (find_sync, short) (kept refl (ground (arith, length-drop offset buffer)) refl)
      | inl long ↦
          rw (find_sync, long)
            (elim (Option-cases (find_sync_byte (drop offset buffer))) [
              | inl e ↦ rw e (kept refl (omega arith) refl)
              | inr (k, e) ↦
                  let place : IsPlace (drop offset buffer) k =
                    (find_sync_byte_lem (drop offset buffer)).holds k e in
                  let there : byte_at buffer (offset + k) ≡ sync_byte =
                    sym (byte_at-drop offset k buffer) ∙ place.1 in
                  let inside : k < length (drop offset buffer) = place.0 in
                  let len : length (drop offset buffer) ≡ length buffer - offset =
                    length-drop offset buffer in
                  rw e (elim (Bool-cases (ltb (length buffer - (offset + k)) ts_packet_size)) [
                    | inl less ↦
                        rw less (kept refl (ground (arith, length-drop (offset + k) buffer)) refl)
                    | inr enough ↦
                        rw enough
                          (elim (Bool-cases (ltb ts_packet_size (length buffer - (offset + k)))) [
                            | inr last ↦ rw last (
                                found refl refl (omega arith) (record {
                                  whole = ground arith;
                                  synced = there;
                                  next_lem = inl (ground arith);
                                }))
                            | inl more ↦
                                rw more
                                  (elim (Bool-cases
                                    (byte_at buffer (offset + k + ts_packet_size) == sync_byte)) [
                                      | inl synced ↦ rw synced (
                                          found refl refl (omega arith) (record {
                                            whole = ground arith;
                                            synced = there;
                                            next_lem = inr ((==_iff _ _).0 synced);
                                          }))
                                      | inr lost ↦ rw lost (
                                          weaken buffer offset (offset + k + ts_packet_size + 1)
                                            (find_sync fuel buffer
                                              (offset + k + ts_packet_size + 1))
                                            (omega arith)
                                            (find_sync-IsFind fuel buffer
                                              (offset + k + ts_packet_size + 1) (ground arith)
                                              (ground arith)))
                                    ])
                          ])
                  ])
            ])
    ]
