-- ===== src/Tests/Text.antt =====
-- Comparison without regard to case, as a concrete function, and patterns that match nothing.
use asio_rtc.Common.{refl, none, [], map}
use asio_rtc.Sdp.Text.{equal}
use asio_rtc.Sdp.Names.{Nceq, to_lower, IsCaseless}
use asio_rtc.Sdp.Attribute.{Patterns}
use asio_rtc.Sdp.Simulcast.{RidPatterns}

abbrev pub caseless : Nceq
caseless s t = equal (map to_lower s) (map to_lower t)

pub caseless-IsCaseless : IsCaseless caseless
caseless-IsCaseless = record { nceq_lem = λ s t. refl }

abbrev pub no_patterns : Patterns
no_patterns = record { match_crypto = λ s. none; match_rtcp = λ s. none }

abbrev pub no_rid_patterns : RidPatterns
no_rid_patterns = record {
  match_head = λ s. none;
  segments = λ s. [];
  match_key_value = λ s. none;
  digit_runs = λ s. [];
}
