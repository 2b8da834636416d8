-- ===== src/Chunking/Bounds.antt =====
-- The loop ends, and no chunk is empty or longer than the chunk size.
use multi_agent_ai_analyst.Prelude.{
  leb_false→lt, ap, ◌==◌, ℕ, zero, suc, ◌+◌, ◌-◌, ◌≤◌, ◌<◌, ◌≡◌, refl, false, List, [], ◌∷◌, Option,
  none, some, ok, All, take, drop, length, length-take-le, leb, Bool-cases, inl, inr, arith, min,
}
use multi_agent_ai_analyst.Prelude.Text.{split, codes, join, Text, length-strip}
use multi_agent_ai_analyst.Chunking.{
  before, last_blank, rfind, at_boundary, end_of, back_to_word, forward, next_start_of,
  append_chunk, chunk_at, chunks_from, chunk_text,
}

length-chunk_at : (t : Text) (start end : ℕ) → length (chunk_at t start end) ≤ end - start
unfolding chunk_at
length-chunk_at t start end = omega (
  arith,
  length-strip (take (end - start) (drop start t)),
  length-take-le (end - start) (drop start t),
)

-- A blank that is found lies in the range.
last_blank-bound :
    (t : Text) (from n i : ℕ) → last_blank t from n ≡ some i → (from ≤ i) × (i < from + n)
unfolding last_blank
last_blank-bound t from zero i e = cc
last_blank-bound t from (suc n) i e = ground (arith, last_blank-bound t from n i)

at_boundary-after :
    (start end : ℕ) (found : Option ℕ)
    → ((i : ℕ) → found ≡ some i → (start + 1 ≤ i) × (i < start + 1 + (end - start)))
    → start < end
    → (start < at_boundary start end found) × (at_boundary start end found ≤ end)
unfolding at_boundary
at_boundary-after start end none k h = (h, omega arith)
at_boundary-after start end (some i) k h = ground (arith, k i refl)

-- A chunk ends after its start, at most `size` later.
end_of-after :
    (t : Text) (size start : ℕ)
    → 0 < size
    → start < length t
    → (start < end_of t size start) × (end_of t size start ≤ start + size)
unfolding end_of rfind
end_of-after t size start pos h =
    let end = min (start + size) (length t) in
    ground (
      arith,
      at_boundary-after start end (last_blank t (start + 1) (end - start))
          (last_blank-bound t (start + 1) (end - start)) (omega arith),
    )

back_to_word-le : (t : Text) (start n : ℕ) → back_to_word t start n ≤ n
unfolding back_to_word
back_to_word-le t start zero = omega arith
back_to_word-le t start (suc n) = ground (arith, back_to_word-le t start n)

next_start_of-after :
    (t : Text) (overlap start end : ℕ) → start < end → start < next_start_of t overlap start end
unfolding next_start_of forward
next_start_of-after t overlap start end h = ground arith

-- A chunk with a text, of at most `size` characters.
abbrev pub IsChunk : ℕ → Text → Type 0
IsChunk size chunk = (0 < length chunk) × (length chunk ≤ size)

All-append_chunk :
    (size : ℕ) (chunk : Text) (chunks : List Text)
    → length chunk ≤ size
    → All (IsChunk size) chunks
    → All (IsChunk size) (append_chunk chunk chunks)
unfolding append_chunk
All-append_chunk size [] chunks le h = h
All-append_chunk size (c ∷ chunk) chunks le h = ((omega arith, le), h)

Ends : ℕ → Option (List Text) → Type 0
Ends size result = (chunks : List Text) × (result ≡ some chunks) × All (IsChunk size) chunks

module _ (t : Text) (size overlap : ℕ) (pos : 0 < size) where
  chunk_at-size :
      (start : ℕ) → start < length t → length (chunk_at t start (end_of t size start)) ≤ size
  chunk_at-size start h =
      omega (arith, length-chunk_at t start (end_of t size start), end_of-after t size start pos h)

  chunks_from-Ends :
      (fuel start : ℕ) → length t - start < fuel → Ends size (chunks_from t size overlap fuel start)
  unfolding chunks_from before Ends
  chunks_from-Ends zero start h = absurd (omega (arith, h))
  chunks_from-Ends (suc fuel) start h = elim (Bool-cases (leb (length t) start)) [
    | inl over ↦ rw over ([], refl, tt)
    | inr inside ↦
        let below = leb_false→lt (length t) start inside in
        let end = end_of t size start in
        let size_ok = chunk_at-size start below in
        elim (Bool-cases (leb (length t) end)) [
          | inl last ↦ rw inside (
              rw last (
                append_chunk (chunk_at t start end) [],
                refl,
                All-append_chunk size (chunk_at t start end) [] size_ok tt,
              ))
          | inr more ↦
              let next =
                next_start_of-after t overlap start end (end_of-after t size start pos below).0 in
              let rest =
                chunks_from-Ends fuel (next_start_of t overlap start end)
                  (omega (arith, next, h, below)) in
              rw inside (
                rw more (
                  rw rest.1 (
                    append_chunk (chunk_at t start end) rest.0,
                    refl,
                    All-append_chunk size (chunk_at t start end) rest.0 size_ok rest.2,
                  )))
        ]
  ]

-- With sizes that are accepted, the loop ends, and its chunks have a text each, of at most
-- `chunk_size` characters.
pub chunk_text_terminates :
    (text : Text) (chunk_size chunk_overlap : ℕ)
    → chunk_overlap < chunk_size
    → (chunks : List Text) × (chunk_text text chunk_size chunk_overlap ≡ ok (some chunks))
      × All (IsChunk chunk_size) chunks
unfolding chunk_text Ends
chunk_text_terminates text chunk_size chunk_overlap h =
    let normalized = join (codes " ") (split text) in
    let result =
      chunks_from-Ends normalized chunk_size chunk_overlap (omega arith) (length normalized + 1) 0
        (omega arith) in
    let nonzero : (chunk_size == 0) ≡ false = ground arith in
    let accepted : leb chunk_size chunk_overlap ≡ false = ground arith in
    (result.0, rw nonzero (rw accepted (ap ok result.1)), result.2)
