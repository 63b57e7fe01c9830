-- ===== src/Payload/Next.antt =====
-- The numbers that `payload_new` gives, from the start of the program on.
use ipk2024_projekt.Base.{
  List, M, Option, [], ap, arith, length, map, none, refl, some, suc, ℕ, ◌%◌, ◌+◌, ◌<◌, ◌^◌, ◌∷◌,
  ◌≡◌,
}
use ipk2024_projekt.Payload.{Payload, PayloadData, PayloadType, payload_new}

-- What each call of `payload_new` is given.
abbrev Given : Type 0
Given = PayloadType × Option PayloadData

abbrev make : PayloadData → Given → M ℕ Payload
make uninit g = payload_new uninit g.0 g.1

-- NEXT_MESSAGE_ID and the payloads made, the last one first, after the calls of a list.
unfoldable made_by : PayloadData → List Given → ℕ → Option (List Payload × ℕ)
made_by uninit [] next = some ([], next)
made_by uninit (g ∷ gs) next = elim (make uninit g next) [
  | none ↦ none
  | some (p, next') ↦ elim (made_by uninit gs next') [
    | none ↦ none
    | some (ps, last) ↦ some (p ∷ ps, last)
  ]
]

-- The numbers from `n` on, modulo 2 ^ 16.
abbrev numbers_from : ℕ → List Given → List ℕ
numbers_from n [] = []
numbers_from n (g ∷ gs) = n ∷ numbers_from ((n + 1) % 2 ^ 16) gs

-- Whatever the payloads are, they get the numbers from NEXT_MESSAGE_ID on, one after the other
-- modulo 2 ^ 16, and as many calls later NEXT_MESSAGE_ID is that much further modulo 2 ^ 16.
payload_new_numbers :
    (uninit : PayloadData) (gs : List Given) (next : ℕ)
    → next < 2 ^ 16
    → (ps : List Payload) × (made_by uninit gs next ≡ some (ps, (next + length gs) % 2 ^ 16))
      × (map (λ p. p.id) ps ≡ numbers_from next gs)
unfolding made_by payload_new
payload_new_numbers uninit [] next h =
    let e : next ≡ (next + 0) % 2 ^ 16 = omega arith in ([], ap (λ n. some ([], n)) e, refl)
payload_new_numbers uninit ((type, d) ∷ gs) next h =
    let next' = (next + 1) % 2 ^ 16 in
    let (ps, is, ids) = payload_new_numbers uninit gs next' (omega arith) in
    let total : (next' + length gs) % 2 ^ 16 ≡ (next + suc (length gs)) % 2 ^ 16 = omega arith in
    let p : Payload = record {
      type = type;
      body = elim d [ none ↦ uninit | some given ↦ given ];
      id = next;
    } in
    (p ∷ ps, rw (is, made_by) (ap (λ n. some (p ∷ ps, n)) total), ap (λ l. next ∷ l) ids)
