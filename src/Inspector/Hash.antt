-- ===== src/Inspector/Hash.antt =====
-- `hash_of` of cincan/command_inspector.py: the digest of a file that the log does not tell.
use cincan_command.Prelude.{
  ℕ, zero, suc, ◌<◌, Text, length, take, drop, length-drop, append-nil, Option, none, some, List,
  [], ◌∷◌, ◌++◌, ◌==◌, nat_eq, list_eq, if◌then◌else◌, ◌≡◌, refl, arith,
}
use mathlib.Core.Option
use cincan_command.Log.Hash.{chunk_joined, read_with_hash, read_with_hash_lem}

-- The loop over the chunks that have still to be read, the first one at hand, with what the hash
-- has been given. `none` is a loop that has not ended.
hash_chunks : ℕ → List ℕ → List ℕ → List ℕ → Option (List ℕ)
hash_chunks zero chunk stream hashed = none
hash_chunks (suc fuel) chunk stream hashed =
    let more = hash_chunks fuel (take 2048 stream) (drop 2048 stream) (hashed ++ chunk) in
    if chunk == [] then some hashed else more

-- `hash_of`, of a path at which a file with some content stands or none
unfoldable pub hash_of : (List ℕ → Text) → Option (List ℕ) → Option Text
unfolding hash_chunks
hash_of digest none = some []
hash_of digest (some stream) =
    Option.map digest (hash_chunks (suc (length stream)) (take 2048 stream) (drop 2048 stream) [])

hash_chunks_lem :
    (fuel : ℕ) (s hashed : List ℕ)
    → length s < fuel
    → hash_chunks fuel (take 2048 s) (drop 2048 s) hashed ≡ some (hashed ++ s)
unfolding hash_chunks
hash_chunks_lem zero s hashed l = absurd (omega arith)
hash_chunks_lem (suc fuel) [] hashed l = rw (append-nil hashed) (ground arith)
hash_chunks_lem (suc fuel) (b ∷ s) hashed l =
    let rest : List ℕ = drop 2048 (b ∷ s) in
    let chunk : List ℕ = take 2048 (b ∷ s) in
    let e : hash_chunks fuel (take 2048 rest) (drop 2048 rest) (hashed ++ chunk)
        ≡ some ((hashed ++ chunk) ++ rest) =
      hash_chunks_lem fuel rest (hashed ++ chunk) (omega (arith, length-drop 2048 (b ∷ s), l)) in
    ground (arith, e, chunk_joined hashed (b ∷ s))

-- The digest that the inspector finds for a file is the one that is logged when the file is read.
pub hash_of-read_with_hash :
    (digest : List ℕ → Text) (stream : List ℕ)
    → hash_of digest (some stream) ≡ Option.map (λ r. digest r.0) (read_with_hash stream)
unfolding hash_of
hash_of-read_with_hash digest stream =
    rw (read_with_hash_lem stream, hash_chunks_lem (suc (length stream)) stream [] (omega arith))
      refl
