-- ===== src/Sdp/Direction/Agree.antt =====
-- What a negotiated direction means for the two sides.
use asio_rtc.Common.{Bool, true, false, ◌&&◌, ◌≡◌, refl}
use asio_rtc.Sdp.{SdpDirection, inactive, sendonly, recvonly, sendrecv}
use asio_rtc.Sdp.Direction.{to_underlying, from_underlying, reverse_direction, negotiate_direction}

unfoldable pub sends : SdpDirection → Bool
sends inactive = false
sends sendonly = true
sends recvonly = false
sends sendrecv = true

unfoldable pub receives : SdpDirection → Bool
receives inactive = false
receives sendonly = false
receives recvonly = true
receives sendrecv = true

-- In the negotiated direction the local side sends exactly if it offers to send and the remote side
-- to receive, it receives exactly if it offers to receive and the remote side to send, and the
-- remote side comes to the same direction, seen from its end.
pub negotiate_direction_agrees :
    (local remote : SdpDirection)
    → (sends (negotiate_direction local remote) ≡ (sends local && receives remote))
      × (receives (negotiate_direction local remote) ≡ (receives local && sends remote))
      × (negotiate_direction remote local ≡ reverse_direction (negotiate_direction local remote))
unfolding negotiate_direction reverse_direction to_underlying from_underlying sends receives
negotiate_direction_agrees inactive inactive = (refl, refl, refl)
negotiate_direction_agrees inactive sendonly = (refl, refl, refl)
negotiate_direction_agrees inactive recvonly = (refl, refl, refl)
negotiate_direction_agrees inactive sendrecv = (refl, refl, refl)
negotiate_direction_agrees sendonly inactive = (refl, refl, refl)
negotiate_direction_agrees sendonly sendonly = (refl, refl, refl)
negotiate_direction_agrees sendonly recvonly = (refl, refl, refl)
negotiate_direction_agrees sendonly sendrecv = (refl, refl, refl)
negotiate_direction_agrees recvonly inactive = (refl, refl, refl)
negotiate_direction_agrees recvonly sendonly = (refl, refl, refl)
negotiate_direction_agrees recvonly recvonly = (refl, refl, refl)
negotiate_direction_agrees recvonly sendrecv = (refl, refl, refl)
negotiate_direction_agrees sendrecv inactive = (refl, refl, refl)
negotiate_direction_agrees sendrecv sendonly = (refl, refl, refl)
negotiate_direction_agrees sendrecv recvonly = (refl, refl, refl)
negotiate_direction_agrees sendrecv sendrecv = (refl, refl, refl)
