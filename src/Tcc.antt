-- ===== src/Tcc.antt =====
-- src/rtcp.cpp, src/rtcp.hpp: the SDES packet and the transport-wide feedback packet.
pub mod Words
pub mod Status
pub mod Read
use asio_rtc.Common.{
  ℕ, zero, suc, ◌+◌, ◌-◌, ◌*◌, ◌/◌, ◌%◌, ◌^◌, bit_or, u8, u16, ◌<<<◌, ◌>>>◌, Bool, ◌==◌,
  if◌then◌else◌, List, [], ◌∷◌, ◌++◌, length, drop, replicate,
}
use asio_rtc.Binary.{Binary}

pub record SdesChunk : Type 0 where
  pub ssrc : ℕ
  pub cname : List ℕ

pub record TransportCcFeedback : Type 0 where
  pub sender_ssrc : ℕ
  pub media_ssrc : ℕ
  pub base_seq : ℕ
  pub status_count : ℕ
  pub reference_time : ℕ
  pub feedback_packet_count : ℕ
  pub packet_chunks : List ℕ

pub data TccPacketStatus : Type 0 where
  not_received small_delta large_delta received_without_delta : TccPacketStatus

-- `delta` is the 16 bits of an `int16_t`.
pub record TccPacketInfo : Type 0 where
  pub status : TccPacketStatus
  pub delta : ℕ

-- The zero bytes that make a size a multiple of four.
unfoldable pub filling : ℕ → List ℕ
filling size = replicate ((4 - size % 4) % 4) 0

module _ (bin : Binary) where
  -- The number, the item with the name, two zero bytes, and zeros up to a whole word.
  unfoldable pub sdes_body : SdesChunk → List ℕ
  sdes_body c =
      let chunk : List ℕ =
        bin.write32 c.ssrc ++ 1 ∷ u8 (length c.cname) ∷ (c.cname ++ 0 ∷ 0 ∷ []) in
      chunk ++ filling (length chunk)

  unfoldable pub sdes_bytes : SdesChunk → List ℕ
  sdes_bytes c =
      let chunk = sdes_body c in
      bit_or (2 <<< 6) 1 ∷ 202 ∷ (bin.write16 (u16 ((4 + length chunk) / 4 - 1)) ++ chunk)

  unfoldable pub fci_bytes : TransportCcFeedback → List ℕ
  fci_bytes fb =
      bin.write16 fb.base_seq
      ++ (bin.write16 fb.status_count
          ++ u8 (fb.reference_time >>> 16)
            ∷ u8 (fb.reference_time >>> 8)
            ∷ u8 fb.reference_time
            ∷ fb.feedback_packet_count
            ∷ fb.packet_chunks)

  -- The zeros at the end; the last of them is their number.
  unfoldable pub counted_padding : ℕ → List ℕ
  counted_padding zero = []
  counted_padding (suc n) = replicate n 0 ++ suc n ∷ []

  -- The first word is written twice in the source; the second time with the size that is sent.
  unfoldable pub build_transport_cc : TransportCcFeedback → List ℕ
  build_transport_cc fb =
      let body : List ℕ =
        bin.write32 fb.sender_ssrc ++ (bin.write32 fb.media_ssrc ++ fci_bytes fb) in
      let pad = (4 - (4 + length body) % 4) % 4 in
      let first = bit_or (2 <<< 6) 15 in
      (if pad == 0 then first else bit_or first 0x20)
      ∷ 205
      ∷ (bin.write16 (u16 ((4 + length body + pad) / 4 - 1)) ++ (body ++ counted_padding pad))

-- `sym`
unfoldable pub symbol : TccPacketStatus → ℕ
symbol not_received = 0
symbol small_delta = 1
symbol large_delta = 2
symbol received_without_delta = 3

unfoldable pub delta_bytes : TccPacketInfo → List ℕ
delta_bytes p = elim p.status [
  | not_received ↦ []
  | small_delta ↦ u8 p.delta ∷ []
  | large_delta ↦ u8 (p.delta >>> 8) ∷ u8 p.delta ∷ []
  | received_without_delta ↦ []
]

-- The inner loop with the rounds that are left: `bits` is twice their number less two.
unfoldable pub chunk_loop : ℕ → ℕ → List TccPacketInfo → ℕ × List TccPacketInfo
chunk_loop zero chunk packets = (chunk, packets)
chunk_loop (suc k) chunk [] = (chunk, [])
chunk_loop (suc k) chunk (p ∷ packets) =
    chunk_loop k (bit_or chunk (symbol p.status <<< (2 * k))) packets

unfoldable pub all_deltas : List TccPacketInfo → List ℕ
all_deltas [] = []
all_deltas (p ∷ packets) = delta_bytes p ++ all_deltas packets

module _ (bin : Binary) where
  -- The outer loop; each round takes a packet at least.
  unfoldable pub chunks_loop : ℕ → List TccPacketInfo → List ℕ
  chunks_loop zero packets = []
  chunks_loop (suc fuel) [] = []
  chunks_loop (suc fuel) (p ∷ packets) =
      let (chunk, rest) = chunk_loop 7 0xC000 (p ∷ packets) in
      bin.write16 chunk ++ chunks_loop fuel rest

  -- The deltas are collected in the order of the packets and stand behind all chunks.
  unfoldable pub tcc_build_packet_status : List TccPacketInfo → List ℕ
  tcc_build_packet_status packets = chunks_loop (length packets) packets ++ all_deltas packets
