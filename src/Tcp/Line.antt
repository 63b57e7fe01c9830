-- ===== src/Tcp/Line.antt =====
-- The TCP form of a message as a list of bytes: the format that `tcp_serialize` is to produce.
use ipk2024_projekt.Base.{List, [], codes, false, true, ℕ, ◌++◌}
use ipk2024_projekt.Frame.{
  Frame, authenticating, confirming, failing, joining, leaving, replying, saying,
}

abbrev pub crlf : List ℕ
crlf = codes "\r\n"

abbrev pub line_of : Frame → List ℕ
line_of confirming = []
line_of leaving = codes "BYE" ++ crlf
line_of (replying true ref c) = codes "REPLY " ++ (codes "OK IS " ++ (c ++ crlf))
line_of (replying false ref c) = codes "REPLY N" ++ (codes "OK IS " ++ (c ++ crlf))
line_of (authenticating u d s) =
    codes "AUTH " ++ (u ++ (codes " AS " ++ (d ++ (codes " USING " ++ (s ++ crlf)))))
line_of (joining c d) = codes "JOIN " ++ (c ++ (codes " AS " ++ (d ++ crlf)))
line_of (saying d c) = codes "MSG FROM " ++ (d ++ (codes " IS " ++ (c ++ crlf)))
line_of (failing d c) = codes "ERR FROM " ++ (d ++ (codes " IS " ++ (c ++ crlf)))

-- A confirmation has no TCP form.
abbrev pub HasLine : Frame → Type 0
HasLine confirming = ⊥
HasLine _ = Unit
