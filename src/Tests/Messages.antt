-- ===== src/Tests/Messages.antt =====
-- Addresses, subjects and envelopes.
use mutmuas.Prelude.{◌≡◌, refl, true, ◌↔◌, ◌&&◌, ◌==◌}
use mutmuas.Result.{ok}
use mutmuas.Ids.{Address, parse, to_text, matches_from, token_char, partition}
use mutmuas.Ids.RoundTrip.{parse-to_text, to_text-parse}
use mutmuas.Bus.{
  Names, inbox_subject, inbox_filter, sender_node_from_subject, subject_match, may_publish,
}
use mutmuas.Bus.Split.{split}
use mutmuas.Bus.Matching.{Matches, subject_match_iff}
use mutmuas.Bus.Routing.{AreTokens, sender_node-inbox_subject, inbox_filter-inbox_subject}
use mutmuas.Bus.Publishing.{may_publish-inbox_subject}
use mutmuas.Protocol.Types.{result_status}
use mutmuas.Protocol.Envelope.{validate, check_protocol, check_address, check_body}
use mutmuas.Protocol.Codec.{Fresh, from_dict, to_dict}
use mutmuas.Protocol.RoundTrip.{from_dict-to_dict, IsFilled, IsNormalRef}
use mutmuas.Protocol.Valid.{IsValid, from_dict-IsValid}
use mutmuas.Tests.Samples.{result_message, patch}

abbrev a_db : Address
a_db = record { node = "A"; agent = "db" }

abbrev demo : Names
demo = record { project = "demo" }

a_db-AreTokens : AreTokens a_db
unfolding matches_from token_char
a_db-AreTokens = record { node = refl; agent = refl }

parse-to_text_example : parse (to_text a_db) ≡ ok a_db
parse-to_text_example = parse-to_text a_db a_db-AreTokens.node a_db-AreTokens.agent

parse-a_db : parse "A:db" ≡ ok a_db
unfolding parse partition matches_from token_char
parse-a_db = refl

to_text-parse_example :
    (to_text a_db ≡ "A:db") × (matches_from 0 "A" ≡ true) × (matches_from 0 "db" ≡ true)
to_text-parse_example = to_text-parse "A:db" a_db parse-a_db

subject_match_example :
    (subject_match "mm.*.msg.>" "mm.demo.msg.A.db.B" ≡ true)
    ↔ Matches (split b'.' "mm.*.msg.>") (split b'.' "mm.demo.msg.A.db.B")
subject_match_example = subject_match_iff "mm.*.msg.>" "mm.demo.msg.A.db.B"

demo_token : matches_from 0 "demo" ≡ true
unfolding matches_from token_char
demo_token = refl

b_token : matches_from 0 "B" ≡ true
unfolding matches_from token_char
b_token = refl

sender_node_example : sender_node_from_subject (inbox_subject demo a_db "B") ≡ "B"
sender_node_example = sender_node-inbox_subject demo a_db demo_token a_db-AreTokens "B" b_token

may_publish_example : may_publish "demo" "A" (inbox_subject demo a_db "B") ≡ ("A" == "B")
may_publish_example =
    may_publish-inbox_subject "demo" "A" demo_token a_db-AreTokens.node a_db "B" a_db-AreTokens
      b_token

inbox_filter_example :
    subject_match (inbox_filter demo a_db) (inbox_subject demo a_db "B")
    ≡ ("A" == "A" && "db" == "db")
inbox_filter_example =
    inbox_filter-inbox_subject demo a_db a_db "B" demo_token a_db-AreTokens a_db-AreTokens b_token

abbrev at_noon : Fresh
at_noon = record { conversation_id = "conv-9"; now = "2026-01-01T12:00:00Z" }

patch-IsNormalRef : IsNormalRef patch
patch-IsNormalRef = record {
  uri = refl;
  id = λ h. cc;
  size = λ h. refl;
  sha256 = λ h. cc;
  media_type = λ h. refl;
  description = λ h. refl;
}

result-IsFilled : IsFilled result_message
result-IsFilled = record {
  message_id = refl;
  sender = refl;
  to = refl;
  conversation_id = refl;
  timestamp = refl;
  priority = refl;
  protocol = refl;
  artifacts = (patch-IsNormalRef, tt);
}

result_valid : validate result_message ≡ ok result_message
unfolding validate check_protocol check_address check_body parse partition matches_from token_char
    result_status
result_valid = refl

from_dict-to_dict_example : from_dict at_noon (to_dict result_message) ≡ ok result_message
from_dict-to_dict_example = from_dict-to_dict at_noon result_message result-IsFilled result_valid

read_back : from_dict at_noon (to_dict result_message) ≡ ok result_message
read_back = from_dict-to_dict at_noon result_message result-IsFilled result_valid

from_dict-IsValid_example : IsValid result_message
from_dict-IsValid_example =
    from_dict-IsValid at_noon (to_dict result_message) result_message read_back
