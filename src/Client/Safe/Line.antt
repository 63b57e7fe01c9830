-- ===== src/Client/Safe/Line.antt =====
-- What reading a line brings, for the lines that may come.
use ipk2024_projekt.Base.{
  All, Any, Bool, List, Returns, [], arith, false, inl, inr, length, negsuc, pos, refl, subst, suc,
  sym, true, zero, ℕ, ℤ, ◌++◌, ◌<◌, ◌∷◌, ◌≡◌,
}
use ipk2024_projekt.Bytes.{Bytes, bytes_get, bytes_new, bytes_size}
use ipk2024_projekt.Bytes.Push.{holding}
use ipk2024_projekt.Input.{read_line_stdin}
use ipk2024_projekt.Input.Line.{IsLine}
use ipk2024_projekt.Input.Line.Total.{read_line_stdin-last, read_line_stdin-short}
use ipk2024_projekt.Client.Lines.{IsText, IsTypable, IsTyped, joined}

-- What `readLineStdin` brings: the rest is lines again, and the buffer of a line has its text.
abbrev pub HoldsText : Bytes → Type 0
HoldsText b = (line : List ℕ) × (tail : List ℕ) × (bytes_get b ≡ line ++ (0 ∷ tail)) × IsText line

abbrev pub IsBrought : ℤ × Bytes × List ℕ → Type 0
IsBrought (negsuc n, b, rest) = IsTyped rest
IsBrought (pos zero, b, rest) = IsTyped rest
IsBrought (pos (suc n), b, rest) = IsTyped rest × HoldsText b

-- Whatever the result is, the rest is lines.
pub brought_rest : (r : ℤ) (b : Bytes) (rest : List ℕ) → IsBrought (r, b, rest) → IsTyped rest
brought_rest (negsuc n) b rest h = h
brought_rest (pos zero) b rest h = h
brought_rest (pos (suc n)) b rest (h, t) = h

-- A line that is read.
line-IsBrought :
    (line : List ℕ) (b : Bytes) (rest tail : List ℕ)
    → IsTypable line
    → IsTyped rest
    → bytes_get b ≡ line ++ (0 ∷ tail)
    → IsBrought (pos (length line), b, rest)
line-IsBrought [] b rest tail t r e = r
line-IsBrought (x ∷ line) b rest tail (inl empty) r e = cc
line-IsBrought (x ∷ line) b rest tail (inr t) r e = (r, (x ∷ line, tail, e, t))

IsTypable-IsLine : (line : List ℕ) → IsTypable line → IsLine line × (length line < bytes_size)
IsTypable-IsLine line (inl empty) =
    subst (λ l. IsLine l × (length l < bytes_size)) (sym empty) (tt, omega arith)
IsTypable-IsLine line (inr t) = (t.one_line, t.fits)

pub read_line_stdin-Returns :
    (ended : Bool) (input : List ℕ)
    → IsTyped input
    → Returns Any IsBrought (read_line_stdin ended input bytes_new)
unfolding read_line_stdin
read_line_stdin-Returns true input t = record {
  at = λ e any. ((negsuc 0, bytes_new, input), e, refl, tt, t);
}
read_line_stdin-Returns false input t =
    subst (λ s. Returns Any IsBrought (read_line_stdin false s bytes_new)) (sym t.parts)
      (of_lines t.lines t.typable)
  where
    of_lines :
        (lines : List (List ℕ))
        → All IsTypable lines
        → Returns Any IsBrought (read_line_stdin false (joined lines t.last) bytes_new)
    of_lines [] all = record {
      at = λ e any. (
        (negsuc 0, holding t.last, []),
        e,
        read_line_stdin-last t.last e t.last_line t.last_fits,
        tt,
        record {
          lines = [];
          last = [];
          parts = refl;
          typable = tt;
          last_line = tt;
          last_fits = omega arith;
        },
      );
    }
    of_lines (line ∷ lines) (typable, all) = record {
      at = λ e any.
          let (one_line, small) = IsTypable-IsLine line typable in
          let (b, tail, ran, shown) =
            read_line_stdin-short line (joined lines t.last) e one_line small in
          let rest : IsTyped (joined lines t.last) = record {
            lines = lines;
            last = t.last;
            parts = refl;
            typable = all;
            last_line = t.last_line;
            last_fits = t.last_fits;
          } in
          (
            (pos (length line), b, joined lines t.last),
            e,
            ran,
            tt,
            line-IsBrought line b (joined lines t.last) tail typable rest shown,
          );
    }
