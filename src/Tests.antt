-- ===== src/Tests.antt =====
-- Runs of the definitions and the theorems at concrete inputs, by component.
mod Fixture
mod Rtp
mod Nack
mod MediaTrack
mod Mpegts
mod Connection
mod Sending
mod Vpx
mod Rtcp
mod Remb
mod Text
mod Sdp
mod Session
mod Stats
mod Twcc
mod Codec
mod Jitter
