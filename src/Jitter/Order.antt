-- ===== src/Jitter/Order.antt =====
-- The entries of the buffer rise and are not below the expected number.
use asio_rtc.Common.{
  ℕ, ◌+◌, ◌^◌, ◌≤◌, ◌<◌, ◌≡◌, ◌⊎◌, ◌∙◌, refl, true, false, ltb, Bool-cases, inl, inr, List, [], ◌∷◌,
  arith,
}
use asio_rtc.Rtp.{RtpPacket}
use asio_rtc.Jitter.Seq.{joined}
use asio_rtc.Jitter.{Entry, JitterBuffer, extend_seq, contains, insert, is_empty, store, push}

-- Keys are 32-bit numbers from `b` on, each above the one before it.
abbrev pub Rising : ℕ → List Entry → Type 0
Rising b [] = Unit {0}
Rising b ((k, p) ∷ es) = (b ≤ k) × (k < 2 ^ 32) × Rising (k + 1) es

pub Rising-mono : (a b : ℕ) (es : List Entry) → a ≤ b → Rising b es → Rising a es
Rising-mono a b [] h r = tt
Rising-mono a b ((k, p) ∷ es) h r = (omega arith, r.1, r.2)

insert-Rising :
    (b key : ℕ) (pkt : RtpPacket) (es : List Entry)
    → b ≤ key
    → key < 2 ^ 32
    → contains key es ≡ false
    → Rising b es
    → Rising b (insert key pkt es)
unfolding insert contains
insert-Rising b key pkt [] h w c r = (h, w, tt)
insert-Rising b key pkt ((k, p) ∷ es) h w c r = elim (Bool-cases (ltb key k)) [
  | inl lower ↦ rw lower (h, w, (ground arith, r.1, r.2))
  | inr above ↦
      rw above (r.0, r.1, insert-Rising (k + 1) key pkt es (ground arith) w (ground arith) r.2)
]

pub extend_seq-lt : (seq last : ℕ) → seq < 2 ^ 16 → last < 2 ^ 32 → extend_seq seq last < 2 ^ 32
unfolding extend_seq
extend_seq-lt seq last h w = ground (arith, joined last seq h)

abbrev pub IsOrdered : JitterBuffer → Type 0
IsOrdered j = Rising j.next_extended_seq j.sorted

store-IsOrdered :
    (j : JitterBuffer) (key : ℕ) (pkt : RtpPacket)
    → key < 2 ^ 32
    → IsOrdered j
    → IsOrdered (store j key pkt)
unfolding store
store-IsOrdered j key pkt w r =
    ground (arith, r, insert-Rising j.next_extended_seq key pkt j.sorted)

-- A first packet sets the expected number while the buffer is empty.
pub record IsValid (j : JitterBuffer) : Type 0 where
  pub ordered : IsOrdered j
  pub next_fits : j.next_extended_seq < 2 ^ 32
  pub starts_empty : (j.first_packet ≡ false) ⊎ (j.sorted ≡ [])

store_keeps :
    (j : JitterBuffer) (key : ℕ) (pkt : RtpPacket)
    → ((store j key pkt).next_extended_seq ≡ j.next_extended_seq)
      × ((store j key pkt).first_packet ≡ j.first_packet)
unfolding store
store_keeps j key pkt = ground arith

store-IsValid :
    (j : JitterBuffer) (key : ℕ) (pkt : RtpPacket)
    → key < 2 ^ 32
    → IsOrdered j
    → j.next_extended_seq < 2 ^ 32
    → j.first_packet ≡ false
    → IsValid (store j key pkt)
store-IsValid j key pkt w r fits first =
    let (e1, e2) = store_keeps j key pkt in
    record {
      ordered = store-IsOrdered j key pkt w r;
      next_fits = rw e1 fits;
      starts_empty = inl (e2 ∙ first);
    }

-- The two ways in which `push` stores a packet, and the one in which it does not.
push_cases :
    (j : JitterBuffer) (pkt : RtpPacket)
    → (push j pkt ≡ j)
      ⊎ ((j.first_packet ≡ true)
          × (push j pkt
              ≡ store
                  (record j {
                    first_packet = false;
                    next_extended_seq = extend_seq pkt.sequence_number j.next_extended_seq;
                  })
                  (extend_seq pkt.sequence_number j.next_extended_seq)
                  pkt))
      ⊎ ((j.first_packet ≡ false)
          × (push j pkt ≡ store j (extend_seq pkt.sequence_number j.next_extended_seq) pkt))
unfolding push
push_cases j pkt = elim (Bool-cases j.first_packet) [
  | inl first ↦ elim (Bool-cases (is_empty pkt.payload)) [
    | inl none_yet ↦ inl (ground arith)
    | inr some_data ↦ inr (inl (first, ground arith))
  ]
  | inr later ↦ inr (inr (later, ground arith))
]

Rising-of_nil : (b : ℕ) (es : List Entry) → es ≡ [] → Rising b es
Rising-of_nil b [] e = tt
Rising-of_nil b (x ∷ es) e = cc

-- Storing a packet keeps the entries in order, none below the expected number.
pub push-IsValid :
    (j : JitterBuffer) (pkt : RtpPacket)
    → pkt.sequence_number < 2 ^ 16
    → IsValid j
    → IsValid (push j pkt)
push-IsValid j pkt h v =
    let fits = extend_seq-lt pkt.sequence_number j.next_extended_seq h v.next_fits in
    elim (push_cases j pkt) [
      | inl same ↦ rw same v
      | inr (inl (first, e)) ↦ rw e (
          store-IsValid _ _ pkt fits
            (Rising-of_nil _ j.sorted (elim v.starts_empty [ inl no_first ↦ cc | inr nil ↦ nil ]))
            fits refl)
      | inr (inr (later, e)) ↦ rw e (store-IsValid j _ pkt fits v.ordered v.next_fits later)
    ]
