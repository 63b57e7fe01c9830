-- ===== src/Client/Lines.antt =====
-- What is to come on stdin, as lines.
use ipk2024_projekt.Base.{All, List, [], length, ℕ, ◌++◌, ◌<◌, ◌∷◌, ◌≡◌, ◌≤◌, ◌⊎◌}
use ipk2024_projekt.Bytes.{bytes_size}
use ipk2024_projekt.Input.Line.{IsLine, newline}
use ipk2024_projekt.Commands.Trimmed.{IsCore, padded}

-- A line without a NUL, shorter than the buffer, that has something between its blanks.
pub record IsText (line : List ℕ) : Type 0 where
  pub before : ℕ
  pub behind : ℕ
  pub core : List ℕ
  pub parts : line ≡ padded before behind core
  pub trimmed : IsCore core
  pub one_line : IsLine line
  pub fits : length line < bytes_size

-- An empty line, or one with a text.
abbrev pub IsTypable : List ℕ → Type 0
IsTypable line = (line ≡ []) ⊎ IsText line

-- The lines, each with its newline, and what follows the last newline.
abbrev pub joined : List (List ℕ) → List ℕ → List ℕ
joined [] last = last
joined (line ∷ lines) last = line ++ (newline ∷ joined lines last)

-- Every line is empty or has a text, and the buffer holds what follows the last one.
pub record IsTyped (input : List ℕ) : Type 0 where
  pub lines : List (List ℕ)
  pub last : List ℕ
  pub parts : input ≡ joined lines last
  pub typable : All IsTypable lines
  pub last_line : IsLine last
  pub last_fits : length last ≤ bytes_size
