-- ===== src/Stream.antt =====
-- The Read that slipstreamConn and wsFrameConn share
-- (internal/tunnel/runner.go): while the buffer is empty, take the next message into it; then give
-- out what fits. And `io.Copy`, which `bridge` runs over such a connection.
pub mod Laws
pub mod Chunks
use backhaul_recovered.Prelude.{
  ℕ, zero, suc, ◌+◌, ◌<◌, ◌≤◌, ◌≡◌, List, [], ◌∷◌, ◌++◌, length, take, drop,
}
use backhaul_recovered.Prelude.Text.{Str}
use backhaul_recovered.Net.{Error, Ran, M, returned, failed, ◌>>=◌, ◌>>◌, pure, throw, eof, stuck}

-- A connection with the bytes.Buffer `rbuf` in front of it.
pub record Buffered (S : Type 0) : Type 0 where
  pub inner : S
  pub rbuf : Str

abbrev pub concat : List Str → Str
concat [] = []
concat (c ∷ cs) = c ++ concat cs

module _ {S : Type 0} (next : M S Str) where
  -- `for rbuf.Len() == 0 { next message; rbuf.Write(message) }`
  unfoldable pub fill : ℕ → Str → S → Ran (Buffered S) (Unit {0})
  fill fuel (x ∷ xs) s = returned tt (record { inner = s; rbuf = x ∷ xs })
  fill zero [] s = failed stuck (record { inner = s; rbuf = [] })
  fill (suc fuel) [] s = elim (next s) [
    | returned c t ↦ fill fuel c t
    | failed e t ↦ failed e (record { inner = t; rbuf = [] })
  ]

  -- `return rbuf.Read(p)` into a slice of `m` bytes.
  unfoldable pub read_buffer : ℕ → M (Buffered S) Str
  read_buffer m b = returned (take m b.rbuf) (record b { rbuf = drop m b.rbuf })

  unfoldable pub read : ℕ → ℕ → M (Buffered S) Str
  unfolding fill read_buffer
  read fuel m = (λ b. fill fuel b.rbuf b.inner) >> read_buffer m

  -- io.Copy: read up to `m` bytes at a time until the end of the stream, and hand them on.
  unfoldable pub copy : ℕ → ℕ → ℕ → M (Buffered S) Str
  copy zero fuel m b = failed stuck b
  copy (suc rounds) fuel m b = elim (read fuel m b) [
    | returned got b' ↦ elim (copy rounds fuel m b') [
      | returned more b'' ↦ returned (got ++ more) b''
      | failed e b'' ↦ failed e b''
    ]
    | failed eof b' ↦ returned [] b'
    | failed e b' ↦ failed e b'
  ]

-- The Write that slipstreamConn, wsFrameConn and simpleMuxStream share: cut `p` into chunks of at
-- most `limit` bytes, send each, and count what was sent. The fuel falls by a chunk a round. On an
-- error Go returns the count of the chunks before it as well; here it is dropped.
module _ {S : Type 0} (emit : Str → M S (Unit {0})) (limit : ℕ) where
  unfoldable pub write_chunks : ℕ → Str → M S ℕ
  write_chunks fuel [] = pure 0
  write_chunks zero (x ∷ xs) = throw stuck
  write_chunks (suc fuel) (x ∷ xs) = do
    let chunk = take limit (x ∷ xs)
    emit chunk
    n ← write_chunks fuel (drop (length chunk) (x ∷ xs))
    pure (length chunk + n)

  -- One Write, and the Writes of a caller one after the other, who stops at the first error.
  unfoldable pub write_stream : Str → M S ℕ
  unfolding write_chunks
  write_stream p = write_chunks (length p) p

  unfoldable pub write_each : List Str → M S (Unit {0})
  unfolding write_stream
  write_each [] = pure tt
  write_each (p ∷ ps) = write_stream p >>= λ _. write_each ps

-- What a Read needs of the messages under it. `Rest s cs`: behind `s` stand the messages `cs` and
-- then the end of the stream. `budget` bounds the messages and bytes that are still to come.
pub record Source (S : Type 0) : Type 1 where
  pub next : M S Str
  pub Rest : S → List Str → Type 0
  pub budget : S → ℕ
  pub next_message :
      (s : S) (c : Str) (cs : List Str)
      → Rest s (c ∷ cs)
      → (t : S) × (next s ≡ returned c t) × Rest t cs
  pub next_end : (s : S) → Rest s [] → (t : S) × (next s ≡ failed eof t)
  pub enough : (s : S) (cs : List Str) → Rest s cs → length cs + length (concat cs) < budget s
