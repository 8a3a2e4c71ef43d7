-- ===== src/Connection/Resend.antt =====
-- The history of a stream: the last 128 payloads can be asked for again.
use asio_rtc.Common.{
  ℕ, ◌+◌, ◌%◌, ◌^◌, ◌<◌, ◌≡◌, refl, ◌∙◌, u16, none, some, List, [], ◌∷◌, length, get_or, length-set,
  get_or-set_self, get_or-set_ne, arith,
}
use asio_rtc.Transceiver.{RtpStream}
use asio_rtc.Connection.Send.{keep_payload}

-- Payloads with their times, kept one after the other.
unfoldable pub keep_all : List (List ℕ × ℕ) → RtpStream → RtpStream
keep_all [] s = s
keep_all ((payload, timestamp) ∷ payloads) s = keep_all payloads (keep_payload payload timestamp s)

-- The numbers have 16 bits and the history 128 places.
pub record IsStream (s : RtpStream) : Type 0 where
  pub sixteen_bits : s.seq < 2 ^ 16
  pub places : length s.history ≡ 128

pub keep_payload-IsStream :
    (payload : List ℕ) (timestamp : ℕ) (s : RtpStream)
    → IsStream s
    → IsStream (keep_payload payload timestamp s)
unfolding keep_payload
keep_payload-IsStream payload timestamp s v = record {
  sixteen_bits = omega arith;
  places = length-set s.history (u16 (s.seq + 1) % 128) _ ∙ v.places;
}

-- A place is not written by fewer than 128 further payloads. `d` counts those since number `n`.
keep_all_place :
    (payloads : List (List ℕ × ℕ)) (s : RtpStream) (n d : ℕ)
    → s.seq ≡ (n + d) % 2 ^ 16
    → d + length payloads < 128
    → get_or (keep_all payloads s).history (n % 128) none ≡ get_or s.history (n % 128) none
unfolding keep_all keep_payload
keep_all_place [] s n d e few = refl
keep_all_place ((payload, timestamp) ∷ payloads) s n d e few =
    keep_all_place payloads (keep_payload payload timestamp s) n (d + 1) (omega arith) (omega arith)
    ∙ get_or-set_ne s.history (u16 (s.seq + 1) % 128) (n % 128) _ none (omega arith)

-- The identity of a stream does not change.
pub keep_all_same :
    (payloads : List (List ℕ × ℕ)) (s : RtpStream)
    → ((keep_all payloads s).ssrc ≡ s.ssrc)
      × ((keep_all payloads s).rtx_ssrc ≡ s.rtx_ssrc)
      × ((keep_all payloads s).rtx_pt ≡ s.rtx_pt)
unfolding keep_all keep_payload
keep_all_same [] s = (refl, refl, refl)
keep_all_same ((payload, timestamp) ∷ payloads) s =
    keep_all_same payloads (keep_payload payload timestamp s)

-- A payload is in the history until 128 others have been sent behind it.
pub history-keep_all :
    (payload : List ℕ) (timestamp : ℕ) (later : List (List ℕ × ℕ)) (s : RtpStream)
    → IsStream s
    → length later < 128
    → get_or
        (keep_all later (keep_payload payload timestamp s)).history
        (u16 (s.seq + 1) % 128)
        none
      ≡ some (record { payload = payload; seq = u16 (s.seq + 1); timestamp = timestamp })
unfolding keep_payload
history-keep_all payload timestamp later s v few =
    keep_all_place later (keep_payload payload timestamp s) (u16 (s.seq + 1)) 0 (omega arith)
      (omega arith)
    ∙ get_or-set_self s.history (u16 (s.seq + 1) % 128) _ none (omega (arith, v.places))
