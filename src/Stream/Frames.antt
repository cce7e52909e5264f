-- ===== src/Stream/Frames.antt =====
-- Frames come out of `__unpack_container_stream` of cincan/frontend.py however they are cut up.
use cincan_command.Prelude.{
  ℕ, zero, suc, ◌+◌, ◌-◌, ◌*◌, ◌/◌, ◌%◌, ◌^◌, ◌≤◌, ◌<◌, length, take, drop, ltb, leb, true, false,
  Bool-cases, [], ◌∷◌, ◌++◌, ◌≡◌, ◌≢◌, refl, sym, ap, ◌∙◌, arith, All, inl, inr, length-append,
  length-drop, take-append-drop, append_assoc, append-nil,
}
use cincan_command.Stream.{
  Bytes, Socket, read, Read, full, read_until, extend, big_endian, frame, unpack_container_stream,
}

-- The bytes that are still to arrive
abbrev pub content : Socket → Bytes
content [] = []
content (p ∷ ps) = p ++ content ps

-- A piece that arrives has a byte at least.
abbrev pub NoEmpty : Socket → Type 0
NoEmpty = All (λ (p : Bytes). p ≢ [])

drop-ne-nil : (n : ℕ) (p : Bytes) → n < length p → drop n p ≢ []
drop-ne-nil n p h e = absurd (omega (arith, length-drop n p, ap (λ (q : Bytes). length q) e))

length-take-le : (n : ℕ) (p : Bytes) → length (take n p) ≤ n
length-take-le zero p = omega arith
length-take-le (suc n) [] = omega arith
length-take-le (suc n) (x ∷ p) = omega (arith, length-take-le n p)

take-ne-nil : (n : ℕ) (p : Bytes) → 0 < n → 0 < length p → take n p ≢ []
take-ne-nil zero p h k = absurd (omega arith)
take-ne-nil (suc n) [] h k = absurd (omega arith)
take-ne-nil (suc n) (x ∷ p) h k = λ e. cc

-- A read takes a first part of the content, of `n` bytes at most, and of one at least.
read_lem :
    (s : Socket) (n : ℕ)
    → NoEmpty s
    → 0 < n
    → 0 < length (content s)
    → let (r, s') = read s n in
      (r ++ content s' ≡ content s) × (length r ≤ n) × (r ≢ []) × NoEmpty s'
unfolding read
read_lem [] n ne h k = absurd (omega arith)
read_lem (p ∷ ps) n ne h k = elim (Bool-cases (leb (length p) n)) [
  | inl e ↦ rw e (refl, ground arith, ne.0, ne.1)
  | inr e ↦ rw e (
    sym (append_assoc (take n p) (drop n p) (content ps))
        ∙ ap (λ (q : Bytes). q ++ content ps) (take-append-drop n p),
    length-take-le n p,
    take-ne-nil n p h (ground arith),
    (drop-ne-nil n p (ground arith), ne.1),
  )
]

prefix_split :
    (r c xs rest : Bytes)
    → r ++ c ≡ xs ++ rest
    → length r ≤ length xs
    → (r ++ drop (length r) xs ≡ xs) × (c ≡ drop (length r) xs ++ rest)
prefix_split [] c xs rest e h = (refl, e)
prefix_split (b ∷ r) c [] rest e h = absurd (omega arith)
prefix_split (b ∷ r) c (x ∷ xs) rest e h = ground (arith, prefix_split r c xs rest)

extend-ne-nil : (r : Bytes) (next : Bytes → Read) (s : Socket) → r ≢ [] → extend r next s ≡ next r
unfolding extend
extend-ne-nil [] next s n = absurd (n refl)
extend-ne-nil (b ∷ r) next s n = refl

length-pos : (r : Bytes) → r ≢ [] → 0 < length r
length-pos [] n = absurd (n refl)
length-pos (b ∷ r) n = omega arith

-- The loop reads exactly the bytes that are missing, within its fuel.
read_until_lem :
    (fuel n : ℕ) (buf : Bytes) (s : Socket) (xs rest : Bytes)
    → NoEmpty s
    → content s ≡ xs ++ rest
    → length buf + length xs ≡ n
    → length xs ≤ fuel
    → (s' : Socket) × (read_until fuel n buf s ≡ full (buf ++ xs) s')
      × (content s' ≡ rest)
      × NoEmpty s'
unfolding read_until
read_until_lem zero n buf s (x ∷ xs) rest ne e l h = absurd (omega arith)
read_until_lem zero n buf s [] rest ne e l h = (s, ground (arith, append-nil buf), e, ne)
read_until_lem (suc fuel) n buf s [] rest ne e l h = (s, ground (arith, append-nil buf), e, ne)
read_until_lem (suc fuel) n buf s (x ∷ xs) rest ne e l h =
    let (r, s') = read s (n - length buf) in
    let (joined, short, some_byte, ne') =
      read_lem s (n - length buf) ne (omega arith) (rw e (omega arith)) in
    let (front, behind) =
      prefix_split r (content s') (x ∷ xs) rest (joined ∙ e) (omega (arith, short)) in
    let left : Bytes = drop (length r) (x ∷ xs) in
    let some_length : 0 < length r = length-pos r some_byte in
    let size : length buf + length r + length left ≡ n =
      omega (arith, length-drop (length r) (x ∷ xs), short) in
    let (s'', done, rest_eq, ne'') =
      read_until_lem fuel n (buf ++ r) s' left rest ne' behind
        (omega (arith, length-append buf r, size))
        (omega (arith, length-drop (length r) (x ∷ xs), some_length)) in
    let more : ltb (length buf) n ≡ true = ground arith in
    (
      s'',
      rw
          (
            more,
            extend-ne-nil r (λ r. read_until fuel n (buf ++ r) s') s' some_byte,
            done,
            append_assoc buf r left,
            front,
          )
          refl,
      rest_eq,
      ne'',
    )

-- The frame that the Docker API describes: the stream, three zero bytes, the size and the payload.
unfoldable pub frame_bytes : ℕ → Bytes → Bytes
frame_bytes s_type payload =
    let n = length payload in
    s_type ∷ 0 ∷ 0 ∷ 0 ∷ (n / 2 ^ 24) ∷ (n / 2 ^ 16 % 256) ∷ (n / 2 ^ 8 % 256) ∷ (n % 256) ∷ payload

unpack_parts :
    (s s' s'' : Socket) (head payload : Bytes) (v n t : ℕ)
    → read_until 8 8 [] s ≡ full head s'
    → big_endian 0 head ≡ v
    → v % 2 ^ 56 ≡ n
    → v / 2 ^ 56 ≡ t
    → read_until n n [] s' ≡ full payload s''
    → unpack_container_stream false s ≡ frame t payload s''
unfolding unpack_container_stream
unpack_parts s s' s'' head payload v n t h value size kind h' = rw (h, value, size, kind, h') refl

-- A frame that arrives in any pieces, none of them empty, is read as its stream and payload, and
-- nothing behind it is read. The stream is a byte, and the payload's length fits 32 bits.
pub unpack_container_stream-frame_bytes :
    (s_type : ℕ) (payload rest : Bytes) (s : Socket)
    → s_type < 256
    → length payload < 2 ^ 32
    → NoEmpty s
    → content s ≡ frame_bytes s_type payload ++ rest
    → (s' : Socket) × (unpack_container_stream false s ≡ frame s_type payload s')
      × (content s' ≡ rest)
      × NoEmpty s'
unfolding frame_bytes big_endian
unpack_container_stream-frame_bytes s_type payload rest s small fits ne e =
    let n : ℕ = length payload in
    let head : Bytes =
      s_type ∷ 0 ∷ 0 ∷ 0 ∷ (n / 2 ^ 24) ∷ (n / 2 ^ 16 % 256) ∷ (n / 2 ^ 8 % 256) ∷ (n % 256) ∷ [] in
    let (s', h, e', ne') = read_until_lem 8 8 [] s head (payload ++ rest) ne e refl (omega arith) in
    let value : big_endian 0 head ≡ s_type * 2 ^ 56 + n = omega arith in
    let size : (s_type * 2 ^ 56 + n) % 2 ^ 56 ≡ n = omega arith in
    let kind : (s_type * 2 ^ 56 + n) / 2 ^ 56 ≡ s_type = omega arith in
    let (s'', h', e'', ne'') =
      read_until_lem n n [] s' payload rest ne' e' (omega arith) (omega arith) in
    (s'', unpack_parts s s' s'' head payload _ n s_type h value size kind h', e'', ne'')
