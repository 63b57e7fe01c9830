-- ===== src/Udp/Wire.antt =====
-- The UDP form of a message as a list of bytes: the format that `udp_serialize` is to produce.
use ipk2024_projekt.Base.{List, [], if◌then◌else◌, ℕ, ◌%◌, ◌++◌, ◌/◌, ◌∷◌}
use ipk2024_projekt.Payload.{to_byte}
use ipk2024_projekt.Frame.{Frame, authenticating, failing, joining, replying, saying, type_of}

-- A string and the NUL behind it, in front of what follows.
abbrev pub ended : List ℕ → List ℕ → List ℕ
ended s rest = s ++ (0 ∷ rest)

abbrev pub fields_of : Frame → List ℕ
fields_of (replying r ref c) = (if r then 1 else 0) ∷ (ref / 256 % 256) ∷ (ref % 256) ∷ ended c []
fields_of (authenticating u d s) = ended u (ended d (ended s []))
fields_of (joining c d) = ended c (ended d [])
fields_of (saying d c) = ended d (ended c [])
fields_of (failing d c) = ended d (ended c [])
fields_of _ = []

-- The type, the number of the message, high byte first, and the fields.
abbrev pub datagram : ℕ → Frame → List ℕ
datagram id f = to_byte (type_of f) ∷ (id / 256 % 256) ∷ (id % 256) ∷ fields_of f
