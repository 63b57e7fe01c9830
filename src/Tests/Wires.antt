-- ===== src/Tests/Wires.antt =====
-- The two serializers and deserializers.
use ipk2024_projekt.Base.{
  All, List, [], arith, codes, none, some, true, ℕ, ◌*◌, ◌++◌, ◌∷◌, ◌≡◌, ◌≢◌,
}
use ipk2024_projekt.Error.{no_error}
use ipk2024_projekt.Bytes.{Bytes, received, transmitted}
use ipk2024_projekt.Bytes.View.{view}
use ipk2024_projekt.Bytes.Push.{holding}
use ipk2024_projekt.Payload.{bye, is_valid_display_name, message, to_byte, zero_payload}
use ipk2024_projekt.Frame.{Frame, payload_of, saying}
use ipk2024_projekt.Udp.{udp_deserialize, udp_serialize}
use ipk2024_projekt.Udp.Wire.{datagram, ended}
use ipk2024_projekt.Udp.Serialize.{udp_serialize-datagram}
use ipk2024_projekt.Udp.RoundTrip.{udp_round_trip}
use ipk2024_projekt.Udp.Safe.{udp_deserialize_safe}
use ipk2024_projekt.Udp.Overlong.{udp_overlong_display_name}
use ipk2024_projekt.Tcp.{tcp_deserialize, tcp_serialize}
use ipk2024_projekt.Tcp.Line.{line_of}
use ipk2024_projekt.Tcp.Prefix.{tcp_trie}
use ipk2024_projekt.Tcp.Serialize.{tcp_serialize-line}
use ipk2024_projekt.Tcp.RoundTrip.{stored_in, tcp_round_trip}
use ipk2024_projekt.Tcp.Safe.{tcp_deserialize_safe}
use ipk2024_projekt.Tcp.Bye.{tcp_bye_any_end}
use ipk2024_projekt.Tests.Sample.{bob, bob-IsDisplayName, hello, hello-IsMessageContent}

abbrev greeting : Frame
greeting = saying bob hello

udp_serialize-datagram_example :
    udp_serialize (payload_of 258 greeting) no_error
    ≡ some (holding (datagram 258 greeting), no_error)
udp_serialize-datagram_example =
    udp_serialize-datagram 258 greeting (bob-IsDisplayName, hello-IsMessageContent)

udp_round_trip_example :
    (b : Bytes) × (udp_serialize (payload_of 258 greeting) no_error ≡ some (b, no_error))
    × (udp_deserialize (received (transmitted b)) no_error
        ≡ some (payload_of 258 greeting, no_error))
udp_round_trip_example =
    udp_round_trip 258 greeting (omega arith) (bob-IsDisplayName, hello-IsMessageContent)

udp_deserialize_safe_example : udp_deserialize (received (1 ∷ 0 ∷ 7 ∷ 1 ∷ [])) no_error ≢ none
udp_deserialize_safe_example = udp_deserialize_safe (1 ∷ 0 ∷ 7 ∷ 1 ∷ []) no_error

-- A REPLY that is cut behind its first word.
tcp_deserialize_safe_example :
    tcp_deserialize zero_payload tcp_trie (received (codes "REPLY ")) no_error ≢ none
tcp_deserialize_safe_example = tcp_deserialize_safe zero_payload (codes "REPLY ") no_error

-- 21 bytes, one more than a display name may have.
abbrev long_name : List ℕ
long_name = codes "abcdefghijklmnopqrstu"

long_name-valid : All (λ x. is_valid_display_name x ≡ true) long_name
unfolding is_valid_display_name
long_name-valid = ground arith

udp_overlong_display_name_example :
    udp_deserialize (view [] (to_byte message ∷ 1 ∷ 0 ∷ ended long_name []) []) no_error
    ≡ some (payload_of (1 * 256) (saying [] long_name), no_error)
udp_overlong_display_name_example =
    udp_overlong_display_name 1 long_name [] no_error long_name-valid (omega arith) (omega arith)

tcp_serialize-line_example :
    tcp_serialize (payload_of 258 greeting) no_error ≡ some (holding (line_of greeting), no_error)
tcp_serialize-line_example =
    tcp_serialize-line 258 greeting tt (bob-IsDisplayName, hello-IsMessageContent)

tcp_round_trip_example :
    (b : Bytes) × (tcp_serialize (payload_of 258 greeting) no_error ≡ some (b, no_error))
    × (tcp_deserialize zero_payload tcp_trie (received (transmitted b)) no_error
        ≡ some (stored_in zero_payload greeting, no_error))
tcp_round_trip_example =
    tcp_round_trip 258 greeting zero_payload tt (bob-IsDisplayName, hello-IsMessageContent)

tcp_bye_any_end_example :
    tcp_deserialize zero_payload tcp_trie (view [] (codes "BYE" ++ codes "??") (0 ∷ [])) no_error
    ≡ some (record zero_payload { type = bye }, no_error)
tcp_bye_any_end_example =
    tcp_bye_any_end zero_payload (codes "??") (0 ∷ []) no_error (omega arith) (omega arith)
