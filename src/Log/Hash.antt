-- ===== src/Log/Hash.antt =====
-- `read_with_hash` of cincan/command_log.py: a stream is read, hashed and copied in chunks.
use cincan_command.Prelude.{
  ℕ, zero, suc, ◌<◌, length, take, drop, take-append-drop, length-drop, append_assoc, append-nil,
  Option, none, some, List, [], ◌∷◌, ◌++◌, if◌then◌else◌, ◌==◌, nat_eq, list_eq, ◌≡◌, ap, ◌∙◌,
  arith,
}

-- The while loop, with what the hash has been given and what has been written so far. `none` is a
-- loop that has not ended.
copy_chunks : ℕ → List ℕ → List ℕ → List ℕ → Option (List ℕ × List ℕ)
copy_chunks zero stream hashed written = none
copy_chunks (suc fuel) stream hashed written =
    let chunk = take 2048 stream in
    let more = copy_chunks fuel (drop 2048 stream) (hashed ++ chunk) (written ++ chunk) in
    if chunk == [] then some (hashed, written) else more

-- `read_with_hash`, on a stream with the given bytes left, with a round for each byte as fuel
unfoldable pub read_with_hash : List ℕ → Option (List ℕ × List ℕ)
unfolding copy_chunks
read_with_hash stream = copy_chunks (suc (length stream)) stream [] []

pub chunk_joined : (h stream : List ℕ) → (h ++ take 2048 stream) ++ drop 2048 stream ≡ h ++ stream
chunk_joined h stream =
    append_assoc h (take 2048 stream) (drop 2048 stream)
    ∙ ap (λ (v : List ℕ). h ++ v) (take-append-drop 2048 stream)

copy_chunks_lem :
    (fuel : ℕ) (stream hashed written : List ℕ)
    → length stream < fuel
    → copy_chunks fuel stream hashed written ≡ some (hashed ++ stream, written ++ stream)
unfolding copy_chunks
copy_chunks_lem zero stream hashed written l = absurd (omega arith)
copy_chunks_lem (suc fuel) [] hashed written l =
    rw (append-nil hashed, append-nil written) (ground arith)
copy_chunks_lem (suc fuel) (b ∷ stream) hashed written l =
    let rest : List ℕ = drop 2048 (b ∷ stream) in
    let chunk : List ℕ = take 2048 (b ∷ stream) in
    let e : copy_chunks fuel rest (hashed ++ chunk) (written ++ chunk)
        ≡ some ((hashed ++ chunk) ++ rest, (written ++ chunk) ++ rest) =
      copy_chunks_lem fuel rest (hashed ++ chunk) (written ++ chunk)
        (omega (arith, length-drop 2048 (b ∷ stream), l)) in
    ground (arith, e, chunk_joined hashed (b ∷ stream), chunk_joined written (b ∷ stream))

-- The loop ends, and the whole stream, of any length, is hashed and written, in its order.
pub read_with_hash_lem : (stream : List ℕ) → read_with_hash stream ≡ some (stream, stream)
unfolding read_with_hash
read_with_hash_lem stream = copy_chunks_lem (suc (length stream)) stream [] [] (omega arith)
