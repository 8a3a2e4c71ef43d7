-- ===== src/Sdp/Direction.antt =====
-- src/sdp.cpp: the direction that two sides agree on. The enumeration's values are 0 to 3: one bit
-- for sending, one for receiving.
pub mod Agree
use asio_rtc.Common.{ℕ, ◌==◌, if◌then◌else◌, bit_and}
use asio_rtc.Sdp.{SdpDirection, inactive, sendonly, recvonly, sendrecv}

-- `std::to_underlying`
unfoldable pub to_underlying : SdpDirection → ℕ
to_underlying inactive = 0
to_underlying sendonly = 1
to_underlying recvonly = 2
to_underlying sendrecv = 3

-- The cast of a value below 4.
unfoldable pub from_underlying : ℕ → SdpDirection
from_underlying n =
    if n == 0 then inactive else if n == 1 then sendonly else if n == 2 then recvonly else sendrecv

unfoldable pub reverse_direction : SdpDirection → SdpDirection
reverse_direction inactive = inactive
reverse_direction sendrecv = sendrecv
reverse_direction sendonly = recvonly
reverse_direction recvonly = sendonly

unfoldable pub negotiate_direction : SdpDirection → SdpDirection → SdpDirection
negotiate_direction local remote =
    from_underlying (bit_and (to_underlying local) (to_underlying (reverse_direction remote)))
