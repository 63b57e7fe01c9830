-- ===== src/Commands/Safe.antt =====
-- Where `command_parse` returns, and what its command may hold.
pub mod Arguments
pub mod Parse
use ipk2024_projekt.Base.{
  Any, Bool, List, Returns, Returns-access, Returns-bind, Returns-from, Returns-if, Returns-ret,
  Returns-then, [], access, ap, arith, drop, get_elem?, get_elem?-lt, if◌then◌else◌, length,
  length-append, length-drop, length-take, negsuc, not, pos, ret, some, suc, take, zero, ℕ, ℤ, ◌++◌,
  ◌<◌, ◌==◌, ◌∙◌, ◌∷◌, ◌≡◌, ◌≤◌,
}
use ipk2024_projekt.Error.{Exec, invalid_input, set_error}
use ipk2024_projekt.Bytes.{Bytes, bytes_get, bytes_skip_first_n}
use ipk2024_projekt.Bytes.View.{Fills, bytes_get-view, bytes_skip_first_n_lem, view}
use ipk2024_projekt.Bytes.Room.{Returns-set_error}
use ipk2024_projekt.Payload.{
  auth, channel_id_len, display_name_len, join, message_content_len, read, secret_len, username_len,
}
use ipk2024_projekt.Payload.Read.{read_lem, read_result_of, valid_front}
use ipk2024_projekt.Commands.{Command, check_rest, read_argument, reject, skip_space}

-- A slice of the buffer with a cell behind it.
pub record IsSlice (b : Bytes) : Type 0 where
  pub front : List ℕ
  pub slice : List ℕ
  pub back : List ℕ
  pub is_view : b ≡ view front slice back
  pub fills : Fills front slice back
  pub room : 0 < length back

pub bytes_skip_first_n-IsSlice : (b : Bytes) (n : ℕ) → IsSlice b → IsSlice (bytes_skip_first_n b n)
bytes_skip_first_n-IsSlice b n s = record {
  front = s.front ++ take n s.slice;
  slice = drop n s.slice;
  back = s.back;
  is_view =
      ap (λ b. bytes_skip_first_n b n) s.is_view
      ∙ bytes_skip_first_n_lem s.front s.slice s.back n (omega (arith, s.fills));
  fills = omega (
    arith,
    s.fills,
    length-append s.front (take n s.slice),
    length-take n s.slice,
    length-drop n s.slice,
  );
  room = s.room;
}

-- A byte of the slice, or the one behind it.
pub slice_byte :
    (b : Bytes) (s : IsSlice b) (i : ℕ)
    → i ≤ length s.slice
    → (x : ℕ) × (get_elem? (bytes_get b) i ≡ some x)
slice_byte b s i h =
    let (x, got) =
      get_elem?-lt (s.slice ++ s.back) i (omega (arith, s.room, length-append s.slice s.back)) in
    (
      x,
      ap (λ b. get_elem? (bytes_get b) i) s.is_view
          ∙ ap (λ l. get_elem? l i) (bytes_get-view s.front s.slice s.back)
          ∙ got,
    )

-- Strings within the limits of their members.
pub record IsFitCommand (cmd : Command) : Type 0 where
  pub message : length cmd.message ≤ message_content_len
  pub username : length cmd.auth.username ≤ username_len
  pub secret : length cmd.auth.secret ≤ secret_len
  pub auth_name : length cmd.auth.display_name ≤ display_name_len
  pub channel_id : length cmd.join.channel_id ≤ channel_id_len
  pub new_name : length cmd.rename.display_name ≤ display_name_len

abbrev pub Goes : (Command → Bytes → Exec Command) → Type 0
Goes next =
    (cmd : Command) (b : Bytes)
    → IsFitCommand cmd
    → IsSlice b
    → Returns Any IsFitCommand (next cmd b)

-- A reader stores no more than its limit, and stays inside the buffer.
abbrev pub Reads : ℕ → (List ℕ → Bytes → Exec (ℤ × List ℕ)) → Type 0
Reads limit reader =
    (dest : List ℕ) (b : Bytes)
    → length dest ≤ limit
    → IsSlice b
    → Returns Any (λ r. length r.1 ≤ limit) (reader dest b)

length-read_result_of :
    (limit : ℕ) (dest front : List ℕ)
    → length dest ≤ limit
    → length (read_result_of limit dest front).1 ≤ limit
length-read_result_of limit dest [] h = ground (arith, h)
length-read_result_of limit dest (x ∷ front) h =
    ground (arith, h, length-take (length (x ∷ front)) (x ∷ front))

pub read-Reads : (validator : ℕ → Bool) (limit : ℕ) → Reads limit (read validator limit)
read-Reads validator limit dest b h s = record {
  at = λ e any. (
    read_result_of limit dest (valid_front validator s.slice),
    e,
    ap (λ b. read validator limit dest b e) s.is_view
        ∙ read_lem validator limit dest s.front s.slice s.back e,
    tt,
    length-read_result_of limit dest (valid_front validator s.slice) h,
  );
}

pub reject-Returns : (cmd : Command) → IsFitCommand cmd → Returns Any IsFitCommand (reject cmd)
reject-Returns cmd h =
    Returns-then (set_error invalid_input) (ret cmd) (Returns-set_error invalid_input)
      (Returns-ret cmd h)

pub check_rest-Goes : Goes check_rest
unfolding check_rest
check_rest-Goes cmd b h s =
    Returns-then (if not (b.len == 0) then set_error invalid_input else ret tt) (ret cmd)
      (Returns-if (not (b.len == 0)) _ _ (λ e. Returns-set_error invalid_input)
        (λ e. Returns-ret tt tt))
      (Returns-ret cmd h)

pub skip_space-Returns :
    (cmd : Command) (b : Bytes) (next : Command → Bytes → Exec Command)
    → IsFitCommand cmd
    → IsSlice b
    → Goes next
    → Returns Any IsFitCommand (skip_space cmd b next)
unfolding skip_space
skip_space-Returns cmd b next h s goes =
    let (x, got) = slice_byte b s 0 (omega arith) in
    Returns-from (access (get_elem? (bytes_get b) 0)) _
      (Returns-access (get_elem? (bytes_get b) 0) x got tt)
      λ ch.
        Returns-if (not (ch == b' ')) _ _ (λ e. reject-Returns cmd h)
          (λ e. goes cmd (bytes_skip_first_n b 1) h (bytes_skip_first_n-IsSlice b 1 s))

pub read_argument-Returns :
    (reader : List ℕ → Bytes → Exec (ℤ × List ℕ)) (limit : ℕ) (dest : List ℕ) (b : Bytes)
    (put : List ℕ → Command) (next : Command → Bytes → Exec Command)
    → Reads limit reader
    → length dest ≤ limit
    → ((s : List ℕ) → length s ≤ limit → IsFitCommand (put s))
    → IsSlice b
    → Goes next
    → Returns Any IsFitCommand (read_argument reader dest b put next)
unfolding read_argument
read_argument-Returns reader limit dest b put next reads h fits s goes =
    Returns-bind (reader dest b) _ (reads dest b h s) λ r q. after r.0 r.1 q
  where
    after :
        (n : ℤ) (dest' : List ℕ)
        → length dest' ≤ limit
        → Returns Any IsFitCommand (elim n [
          | negsuc _ ↦ reject (put dest')
          | pos zero ↦ reject (put dest')
          | pos (suc n) ↦ next (put dest') (bytes_skip_first_n b (suc n))
        ])
    after (negsuc n) dest' q = reject-Returns (put dest') (fits dest' q)
    after (pos zero) dest' q = reject-Returns (put dest') (fits dest' q)
    after (pos (suc n)) dest' q =
        goes (put dest') (bytes_skip_first_n b (suc n)) (fits dest' q)
          (bytes_skip_first_n-IsSlice b (suc n) s)
