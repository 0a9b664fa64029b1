-- ===== src/Node/Words.antt =====
-- dhtcore/src/DhtNode.cpp: the words and the error texts of the messages, and their codes.
use dhtinspector.Common.{ℕ, List, [], ◌∷◌, if◌then◌else◌, bytes_eq}
use dhtinspector.Bencode.{BValue, Fields, end, field, bytes_lt}

abbrev pub word_id : List ℕ
word_id = b'i' ∷ b'd' ∷ []

abbrev pub word_target : List ℕ
word_target = b't' ∷ b'a' ∷ b'r' ∷ b'g' ∷ b'e' ∷ b't' ∷ []

abbrev pub word_want : List ℕ
word_want = b'w' ∷ b'a' ∷ b'n' ∷ b't' ∷ []

abbrev pub word_nodes : List ℕ
word_nodes = b'n' ∷ b'o' ∷ b'd' ∷ b'e' ∷ b's' ∷ []

abbrev pub word_nodes6 : List ℕ
word_nodes6 = b'n' ∷ b'o' ∷ b'd' ∷ b'e' ∷ b's' ∷ b'6' ∷ []

abbrev pub word_info_hash : List ℕ
word_info_hash = b'i' ∷ b'n' ∷ b'f' ∷ b'o' ∷ b'_' ∷ b'h' ∷ b'a' ∷ b's' ∷ b'h' ∷ []

abbrev pub word_token : List ℕ
word_token = b't' ∷ b'o' ∷ b'k' ∷ b'e' ∷ b'n' ∷ []

abbrev pub word_values : List ℕ
word_values = b'v' ∷ b'a' ∷ b'l' ∷ b'u' ∷ b'e' ∷ b's' ∷ []

abbrev pub word_implied_port : List ℕ
word_implied_port =
    b'i' ∷ b'm' ∷ b'p' ∷ b'l' ∷ b'i' ∷ b'e' ∷ b'd' ∷ b'_' ∷ b'p' ∷ b'o' ∷ b'r' ∷ b't' ∷ []

abbrev pub word_port : List ℕ
word_port = b'p' ∷ b'o' ∷ b'r' ∷ b't' ∷ []

abbrev pub word_samples : List ℕ
word_samples = b's' ∷ b'a' ∷ b'm' ∷ b'p' ∷ b'l' ∷ b'e' ∷ b's' ∷ []

abbrev pub word_num : List ℕ
word_num = b'n' ∷ b'u' ∷ b'm' ∷ []

abbrev pub word_interval : List ℕ
word_interval = b'i' ∷ b'n' ∷ b't' ∷ b'e' ∷ b'r' ∷ b'v' ∷ b'a' ∷ b'l' ∷ []

abbrev pub word_v : List ℕ
word_v = b'v' ∷ []

abbrev pub word_k : List ℕ
word_k = b'k' ∷ []

abbrev pub word_seq : List ℕ
word_seq = b's' ∷ b'e' ∷ b'q' ∷ []

abbrev pub word_sig : List ℕ
word_sig = b's' ∷ b'i' ∷ b'g' ∷ []

abbrev pub word_salt : List ℕ
word_salt = b's' ∷ b'a' ∷ b'l' ∷ b't' ∷ []

abbrev pub word_cas : List ℕ
word_cas = b'c' ∷ b'a' ∷ b's' ∷ []

abbrev pub word_n4 : List ℕ
word_n4 = b'n' ∷ b'4' ∷ []

abbrev pub word_n6 : List ℕ
word_n6 = b'n' ∷ b'6' ∷ []

abbrev pub word_ping : List ℕ
word_ping = b'p' ∷ b'i' ∷ b'n' ∷ b'g' ∷ []

abbrev pub word_find_node : List ℕ
word_find_node = b'f' ∷ b'i' ∷ b'n' ∷ b'd' ∷ b'_' ∷ b'n' ∷ b'o' ∷ b'd' ∷ b'e' ∷ []

abbrev pub word_get_peers : List ℕ
word_get_peers = b'g' ∷ b'e' ∷ b't' ∷ b'_' ∷ b'p' ∷ b'e' ∷ b'e' ∷ b'r' ∷ b's' ∷ []

abbrev pub word_announce_peer : List ℕ
word_announce_peer =
    b'a' ∷ b'n' ∷ b'n' ∷ b'o' ∷ b'u' ∷ b'n' ∷ b'c' ∷ b'e' ∷ b'_' ∷ b'p' ∷ b'e' ∷ b'e' ∷ b'r' ∷ []

abbrev pub word_get : List ℕ
word_get = b'g' ∷ b'e' ∷ b't' ∷ []

abbrev pub word_put : List ℕ
word_put = b'p' ∷ b'u' ∷ b't' ∷ []

abbrev pub word_sample_infohashes : List ℕ
word_sample_infohashes =
    b's' ∷ b'a' ∷ b'm' ∷ b'p' ∷ b'l' ∷ b'e' ∷ b'_' ∷ b'i' ∷ b'n' ∷ b'f' ∷ b'o' ∷ b'h' ∷ b'a' ∷ b's'
    ∷ b'h' ∷ b'e' ∷ b's' ∷ []

abbrev pub text_missing_id : List ℕ
text_missing_id =
    b'm' ∷ b'i' ∷ b's' ∷ b's' ∷ b'i' ∷ b'n' ∷ b'g' ∷ b' ' ∷ b'o' ∷ b'r' ∷ b' ' ∷ b'i' ∷ b'n' ∷ b'v'
    ∷ b'a' ∷ b'l' ∷ b'i' ∷ b'd' ∷ b' ' ∷ b'i' ∷ b'd' ∷ []

abbrev pub text_missing_target : List ℕ
text_missing_target =
    b'm' ∷ b'i' ∷ b's' ∷ b's' ∷ b'i' ∷ b'n' ∷ b'g' ∷ b' ' ∷ b'o' ∷ b'r' ∷ b' ' ∷ b'i' ∷ b'n' ∷ b'v'
    ∷ b'a' ∷ b'l' ∷ b'i' ∷ b'd' ∷ b' ' ∷ b't' ∷ b'a' ∷ b'r' ∷ b'g' ∷ b'e' ∷ b't' ∷ []

abbrev pub text_missing_infohash : List ℕ
text_missing_infohash =
    b'm' ∷ b'i' ∷ b's' ∷ b's' ∷ b'i' ∷ b'n' ∷ b'g' ∷ b' ' ∷ b'o' ∷ b'r' ∷ b' ' ∷ b'i' ∷ b'n' ∷ b'v'
    ∷ b'a' ∷ b'l' ∷ b'i' ∷ b'd' ∷ b' ' ∷ b'i' ∷ b'n' ∷ b'f' ∷ b'o' ∷ b'_' ∷ b'h' ∷ b'a' ∷ b's'
    ∷ b'h' ∷ []

abbrev pub text_invalid_token : List ℕ
text_invalid_token =
    b'i' ∷ b'n' ∷ b'v' ∷ b'a' ∷ b'l' ∷ b'i' ∷ b'd' ∷ b' ' ∷ b't' ∷ b'o' ∷ b'k' ∷ b'e' ∷ b'n' ∷ []

abbrev pub text_invalid_port : List ℕ
text_invalid_port =
    b'i' ∷ b'n' ∷ b'v' ∷ b'a' ∷ b'l' ∷ b'i' ∷ b'd' ∷ b' ' ∷ b'p' ∷ b'o' ∷ b'r' ∷ b't' ∷ []

abbrev pub text_method_unknown : List ℕ
text_method_unknown =
    b'M' ∷ b'e' ∷ b't' ∷ b'h' ∷ b'o' ∷ b'd' ∷ b' ' ∷ b'U' ∷ b'n' ∷ b'k' ∷ b'n' ∷ b'o' ∷ b'w' ∷ b'n'
    ∷ []

abbrev pub text_unreadable_value : List ℕ
text_unreadable_value =
    b'm' ∷ b'i' ∷ b's' ∷ b's' ∷ b'i' ∷ b'n' ∷ b'g' ∷ b' ' ∷ b'o' ∷ b'r' ∷ b' ' ∷ b'u' ∷ b'n' ∷ b'r'
    ∷ b'e' ∷ b'a' ∷ b'd' ∷ b'a' ∷ b'b' ∷ b'l' ∷ b'e' ∷ b' ' ∷ b'v' ∷ []

abbrev pub text_value_too_big : List ℕ
text_value_too_big =
    b'm' ∷ b'e' ∷ b's' ∷ b's' ∷ b'a' ∷ b'g' ∷ b'e' ∷ b' ' ∷ b'(' ∷ b'v' ∷ b' ' ∷ b'f' ∷ b'i' ∷ b'e'
    ∷ b'l' ∷ b'd' ∷ b')' ∷ b' ' ∷ b't' ∷ b'o' ∷ b'o' ∷ b' ' ∷ b'b' ∷ b'i' ∷ b'g' ∷ []

abbrev pub text_invalid_key : List ℕ
text_invalid_key = b'i' ∷ b'n' ∷ b'v' ∷ b'a' ∷ b'l' ∷ b'i' ∷ b'd' ∷ b' ' ∷ b'k' ∷ []

abbrev pub text_salt_too_long : List ℕ
text_salt_too_long =
    b's' ∷ b'a' ∷ b'l' ∷ b't' ∷ b' ' ∷ b'(' ∷ b's' ∷ b'a' ∷ b'l' ∷ b't' ∷ b' ' ∷ b'f' ∷ b'i' ∷ b'e'
    ∷ b'l' ∷ b'd' ∷ b')' ∷ b' ' ∷ b't' ∷ b'o' ∷ b'o' ∷ b' ' ∷ b'l' ∷ b'o' ∷ b'n' ∷ b'g' ∷ []

abbrev pub text_unsigned_put : List ℕ
text_unsigned_put =
    b'm' ∷ b'u' ∷ b't' ∷ b'a' ∷ b'b' ∷ b'l' ∷ b'e' ∷ b' ' ∷ b'p' ∷ b'u' ∷ b't' ∷ b' ' ∷ b'n' ∷ b'e'
    ∷ b'e' ∷ b'd' ∷ b's' ∷ b' ' ∷ b's' ∷ b'e' ∷ b'q' ∷ b' ' ∷ b'a' ∷ b'n' ∷ b'd' ∷ b' ' ∷ b's'
    ∷ b'i' ∷ b'g' ∷ []

abbrev pub text_invalid_signature : List ℕ
text_invalid_signature =
    b'i' ∷ b'n' ∷ b'v' ∷ b'a' ∷ b'l' ∷ b'i' ∷ b'd' ∷ b' ' ∷ b's' ∷ b'i' ∷ b'g' ∷ b'n' ∷ b'a' ∷ b't'
    ∷ b'u' ∷ b'r' ∷ b'e' ∷ []

abbrev pub text_cas_mismatch : List ℕ
text_cas_mismatch =
    b'C' ∷ b'A' ∷ b'S' ∷ b' ' ∷ b'h' ∷ b'a' ∷ b's' ∷ b'h' ∷ b' ' ∷ b'm' ∷ b'i' ∷ b's' ∷ b'm' ∷ b'a'
    ∷ b't' ∷ b'c' ∷ b'h' ∷ b',' ∷ b' ' ∷ b'r' ∷ b'e' ∷ b'-' ∷ b'r' ∷ b'e' ∷ b'a' ∷ b'd' ∷ b' '
    ∷ b'v' ∷ b'a' ∷ b'l' ∷ b'u' ∷ b'e' ∷ b' ' ∷ b'a' ∷ b'n' ∷ b'd' ∷ b' ' ∷ b't' ∷ b'r' ∷ b'y'
    ∷ b' ' ∷ b'a' ∷ b'g' ∷ b'a' ∷ b'i' ∷ b'n' ∷ []

abbrev pub text_sequence_too_low : List ℕ
text_sequence_too_low =
    b's' ∷ b'e' ∷ b'q' ∷ b'u' ∷ b'e' ∷ b'n' ∷ b'c' ∷ b'e' ∷ b' ' ∷ b'n' ∷ b'u' ∷ b'm' ∷ b'b' ∷ b'e'
    ∷ b'r' ∷ b' ' ∷ b'l' ∷ b'e' ∷ b's' ∷ b's' ∷ b' ' ∷ b't' ∷ b'h' ∷ b'a' ∷ b'n' ∷ b' ' ∷ b'c'
    ∷ b'u' ∷ b'r' ∷ b'r' ∷ b'e' ∷ b'n' ∷ b't' ∷ []

abbrev pub code_protocol_error : ℕ
code_protocol_error = 203

abbrev pub code_unknown_method : ℕ
code_unknown_method = 204

abbrev pub code_message_too_big : ℕ
code_message_too_big = 205

abbrev pub code_bad_signature : ℕ
code_bad_signature = 206

abbrev pub code_long_salt : ℕ
code_long_salt = 207

abbrev pub code_cas_error : ℕ
code_cas_error = 301

abbrev pub code_low_sequence : ℕ
code_low_sequence = 302

-- std::map::insert_or_assign.
unfoldable pub assign : List ℕ → BValue → Fields → Fields
unfolding bytes_lt
assign k v end = field k v end
assign k v (field j w fs) =
    if bytes_lt k j
    then field k v (field j w fs)
    else (if bytes_eq j k then field k v fs else field j w (assign k v fs))
