-- ===== src/Connection.antt =====
-- src/connection_impl.cpp: what a connection does with packets and descriptions, without the
-- coroutines, the sockets and the encryption. Send makes RTP packets and answers requests, Route takes
-- a received packet to its source and its track, Signalling takes descriptions.
pub mod Send
pub mod Route
pub mod Signalling
pub mod States
pub mod Accepted
pub mod Sent
pub mod Routed
pub mod Resend
pub mod Restored
pub mod Stripped
