-- ===== src/Bytes/Trim.antt =====
-- What `bytes_trim` leaves, and the input on which it reads outside the array.
use ipk2024_projekt.Base.{
  List, [], add64, ap, append_assoc, arith, drop, false, get_elem?, get_elem?-behind,
  get_elem?-replicate, length, length-append, length-replicate, none, refl, replicate,
  replicate-append_cons, some, sub64, suc, sym, zero, ℕ, ◌++◌, ◌+◌, ◌<◌, ◌==◌, ◌^◌, ◌∙◌, ◌∷◌, ◌≡◌,
  ◌≢◌, ◌≤◌,
}
use ipk2024_projekt.Bytes.View.{Fills, view}
use ipk2024_projekt.Bytes.Push.{store-behind}
use ipk2024_projekt.Error.{Error}
use ipk2024_projekt.Bytes.{Bytes, bytes_size, bytes_trim, store, trim_end, trim_start}

ne→== : (a b : ℕ) → a ≢ b → (a == b) ≡ false
ne→== a b h = ground arith

trim_end_more :
    (ch k : ℕ) (b : Bytes) (count : ℕ)
    → get_elem? b.cells k ≡ some ch
    → trim_end ch (suc k) b count ≡ trim_end ch k (record b { len = sub64 b.len 1 }) (count + 1)
unfolding trim_end
trim_end_more ch k b count g = ground arith

trim_end_stop :
    (ch k x : ℕ) (b : Bytes) (count : ℕ)
    → get_elem? b.cells k ≡ some x
    → x ≢ ch
    → trim_end ch (suc k) b count ≡ some (b, count)
unfolding trim_end
trim_end_stop ch k x b count g h = ground arith

-- The last of the blanks behind `xs`.
get_elem?_last_blank :
    (ch j k : ℕ) (xs rest cells : List ℕ)
    → cells ≡ xs ++ (replicate (suc j) ch ++ rest)
    → k ≡ length xs + j
    → get_elem? cells k ≡ some ch
get_elem?_last_blank ch j k xs rest cells e ek =
    ap (λ c. get_elem? c k) (e ∙ ap (λ r. xs ++ r) (replicate-append_cons j ch rest))
    ∙ get_elem?-behind xs _ k j ek
    ∙ get_elem?-replicate j ch rest

-- Blanks behind `front`, whose last byte is no blank, are taken off one by one.
pub trim_end-blanks :
    (ch j n count k c : ℕ) (front rest : List ℕ) (y : ℕ) (b : Bytes)
    → y ≢ ch
    → b.cells ≡ (front ++ (y ∷ [])) ++ (replicate j ch ++ rest)
    → k ≡ length front + 1 + j
    → b.len ≡ n + j
    → b.len < 2 ^ 64
    → c ≡ count + j
    → trim_end ch k b count ≡ some (record b { len = n }, c)
trim_end-blanks ch j n count zero c front rest y b h cells ek el small ec = absurd (omega arith)
trim_end-blanks ch zero n count (suc k) c front rest y b h cells ek el small ec =
    trim_end_stop ch k y b count
      (ap (λ l. get_elem? l k) (cells ∙ append_assoc front (y ∷ []) _)
        ∙ get_elem?-behind front _ k 0 (omega arith))
      h
    ∙ (λ i. some (record b { len = len_eq i }, count_eq i))
  where
    len_eq : b.len ≡ n
    len_eq = omega arith

    count_eq : count ≡ c
    count_eq = omega arith
trim_end-blanks ch (suc j) n count (suc k) c front rest y b h cells ek el small ec =
    trim_end_more ch k b count (
      get_elem?_last_blank ch j k (front ++ (y ∷ [])) rest b.cells cells
        (omega (arith, length-append front (y ∷ []))))
    ∙ trim_end-blanks ch j n (count + 1) k c front (ch ∷ rest) y _ h
        (cells ∙ ap (λ r. (front ++ (y ∷ [])) ++ r) (replicate-append_cons j ch rest)) (omega arith)
        (omega arith) (omega arith) (omega arith)

-- Where the array holds blanks alone in front of its end, the loop goes on to `data[-1]`.
trim_end-replicate :
    (ch n count : ℕ) (back : List ℕ) (b : Bytes)
    → b.cells ≡ replicate n ch ++ back
    → trim_end ch n b count ≡ none
trim_end-replicate ch zero count back b e = unfold trim_end in refl
trim_end-replicate ch (suc n) count back b e =
    trim_end_more ch n b count (get_elem?_last_blank ch n n [] back b.cells e (omega arith))
    ∙ trim_end-replicate ch n (count + 1) (ch ∷ back) (record b { len = sub64 b.len 1 })
        (e ∙ replicate-append_cons n ch back)

trim_start_more :
    (ch m : ℕ) (b : Bytes) (count : ℕ)
    → get_elem? b.cells b.offset ≡ some ch
    → trim_start ch (suc m) b count
      ≡ trim_start ch m (record b { offset = b.offset + 1; len = sub64 b.len 1 }) (count + 1)
unfolding trim_start
trim_start_more ch m b count g = ground arith

trim_start_stop :
    (ch m x : ℕ) (b : Bytes) (count : ℕ)
    → get_elem? b.cells b.offset ≡ some x
    → x ≢ ch
    → trim_start ch (suc m) b count ≡ some (b, count)
unfolding trim_start
trim_start_stop ch m x b count g h = ground arith

-- The blanks in front of the slice are passed one by one.
pub trim_start-blanks :
    (ch j m n count o c : ℕ) (front rest : List ℕ) (x : ℕ) (b : Bytes)
    → x ≢ ch
    → b.cells ≡ front ++ (replicate j ch ++ (x ∷ rest))
    → b.offset ≡ length front
    → b.len ≡ n + j
    → b.len < 2 ^ 64
    → j < m
    → o ≡ b.offset + j
    → c ≡ count + j
    → trim_start ch m b count ≡ some (record b { len = n; offset = o }, c)
trim_start-blanks ch j zero n count o c front rest x b h cells eo el small lt oe ec =
    absurd (omega arith)
trim_start-blanks ch zero (suc m) n count o c front rest x b h cells eo el small lt oe ec =
    trim_start_stop ch m x b count
      (ap (λ l. get_elem? l b.offset) cells
        ∙ unfold replicate in get_elem?-behind front _ b.offset 0 (omega arith))
      h
    ∙ (λ i. some (record b { len = len_eq i; offset = offset_eq i }, count_eq i))
  where
    len_eq : b.len ≡ n
    len_eq = omega arith

    offset_eq : b.offset ≡ o
    offset_eq = omega arith

    count_eq : count ≡ c
    count_eq = omega arith
trim_start-blanks ch (suc j) (suc m) n count o c front rest x b h cells eo el small lt oe ec =
    trim_start_more ch m b count (
      ap (λ l. get_elem? l b.offset) cells
      ∙ unfold replicate in get_elem?-behind front _ b.offset 0 (omega arith))
    ∙ trim_start-blanks ch j m n (count + 1) o c (front ++ (ch ∷ [])) rest x _ h
        (cells ∙ unfold replicate in sym (append_assoc front (ch ∷ []) _))
        (omega (arith, length-append front (ch ∷ []))) (omega arith) (omega arith) (omega arith)
        (omega arith) (omega arith)

-- A slice at the start of the array, with a cell behind it, holds a text between blanks, and the
-- text begins and ends with a byte that is no blank. Then bytes_trim leaves the text with a NUL
-- behind it, and counts the blanks.
pub bytes_trim_lem :
    (ch i j x y : ℕ) (core mid tail back : List ℕ) (error : Error)
    → core ≡ mid ++ (y ∷ [])
    → core ≡ x ∷ tail
    → y ≢ ch
    → x ≢ ch
    → Fills [] (replicate i ch ++ (core ++ replicate j ch)) back
    → 0 < length back
    → bytes_trim (view [] (replicate i ch ++ (core ++ replicate j ch)) back) ch error
      ≡ some ((view (replicate i ch) core (0 ∷ drop 1 (replicate j ch ++ back)), i + j), error)
unfolding bytes_trim
bytes_trim_lem ch i j x y core mid tail back error ends begins hy hx fills room =
    rw (ended, stored, started) refl
  where
    blanks : ℕ → List ℕ
    blanks n = replicate n ch

    sizes : i + length core + j + length back ≡ bytes_size
    sizes = omega (
      arith,
      fills,
      length-append (blanks i) (core ++ blanks j),
      length-append core (blanks j),
      length-replicate i ch,
      length-replicate j ch,
    )

    all_len : length (blanks i ++ (core ++ blanks j)) ≡ i + length core + j
    all_len = omega (arith, sizes, fills)

    whole : Bytes
    whole = view [] (blanks i ++ (core ++ blanks j)) back

    mid_len : length core ≡ length mid + 1
    mid_len = omega (arith, ap length ends, length-append mid (y ∷ []))

    ended :
        trim_end ch (add64 (length (blanks i ++ (core ++ blanks j))) 0) whole 0
        ≡ some (record whole { len = i + length core }, j)
    ended =
        trim_end-blanks ch j (i + length core) 0 _ j (blanks i ++ mid) back y whole hy
          (rw ends (simp append_assoc))
          (omega
            (arith, all_len, mid_len, length-append (blanks i) mid, length-replicate i ch, sizes))
          (omega (arith, all_len)) (omega (arith, all_len, sizes)) (omega arith)

    left : List ℕ
    left = blanks i ++ (core ++ (0 ∷ drop 1 (blanks j ++ back)))

    stored :
        store (add64 0 (i + length core)) 0 ((blanks i ++ (core ++ blanks j)) ++ back) ≡ some left
    stored =
        ap (store (add64 0 (i + length core)) 0) (simp append_assoc)
        ∙ store-behind (blanks i ++ core) (blanks j ++ back) _ 0
            (omega (arith, sizes, length-append (blanks i) core, length-replicate i ch))
            (omega (arith, room, length-append (blanks j) back))
        ∙ ap some (append_assoc (blanks i) core _)

    started :
        trim_start ch 1501 (record whole { len = i + length core; cells = left }) j
        ≡ some (view (blanks i) core (0 ∷ drop 1 (blanks j ++ back)), i + j)
    started =
        trim_start-blanks ch i 1501 (length core) j i (i + j) []
          (tail ++ (0 ∷ drop 1 (blanks j ++ back))) x _ hx
          (ap (λ c. blanks i ++ (c ++ (0 ∷ drop 1 (blanks j ++ back)))) begins) refl (omega arith)
          (omega (arith, sizes)) (omega (arith, sizes, mid_len)) (omega arith) (omega arith)
        ∙ (λ k. some (
          record { cells = left; len = length core; offset = sym (length-replicate i ch) k },
          i + j,
        ))

-- A slice at the start of the array that holds blanks alone, or nothing, makes bytes_trim read
-- outside the array.
pub bytes_trim-fault :
    (ch n : ℕ) (back : List ℕ) (error : Error)
    → n ≤ bytes_size
    → bytes_trim (view [] (replicate n ch) back) ch error ≡ none
unfolding bytes_trim
bytes_trim-fault ch n back error h = rw ended refl
  where
    size : add64 (length (replicate n ch)) 0 ≡ n
    size = omega (arith, length-replicate n ch)

    ended : trim_end ch (add64 (length (replicate n ch)) 0) (view [] (replicate n ch) back) 0 ≡ none
    ended = rw size (trim_end-replicate ch n 0 back _ refl)
