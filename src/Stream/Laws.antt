-- ===== src/Stream/Laws.antt =====
-- The Read over messages that the connections of internal/tunnel/runner.go share, and io.Copy.
use backhaul_recovered.Prelude.{
  ℕ, zero, suc, ◌+◌, ◌<◌, ◌≤◌, ◌≡◌, refl, sym, ap, ◌∙◌, List, [], ◌∷◌, ◌++◌, length, take, drop,
  arith, append_assoc, length-append, take-append-drop, length-take,
}
use backhaul_recovered.Prelude.Text.{Str}
use backhaul_recovered.Net.{Ran, returned, failed, eof, ◌>>◌}
use backhaul_recovered.Stream.{Buffered, concat, fill, read_buffer, read, copy, Source}

module _ {S : Type 0} (src : Source S) where
  open src use {next, Rest, next_message, next_end}

  -- What has been read off the connection and what stands behind it.
  abbrev pub ahead : Buffered S → List Str → Str
  ahead b cs = b.rbuf ++ concat cs

  -- The loop ends with bytes in the buffer, or at the end of a stream with no byte left.
  abbrev Fills : Str → List Str → Ran (Buffered S) (Unit {0}) → Type 0
  Fills buf cs (returned u d) =
      (ds : List Str) × Rest d.inner ds
      × (0 < length d.rbuf)
      × (buf ++ concat cs ≡ ahead d ds)
      × (length ds ≤ length cs)
  Fills buf cs (failed e d) = (buf ++ concat cs ≡ []) × (e ≡ eof)

  fill-Fills :
      (fuel : ℕ) (buf : Str) (cs : List Str) (s : S)
      → Rest s cs
      → length cs < fuel
      → Fills buf cs (fill next fuel buf s)
  unfolding fill
  fill-Fills fuel (x ∷ xs) cs s r h = (cs, r, omega arith, refl, omega arith)
  fill-Fills zero [] cs s r h = absurd (omega arith)
  fill-Fills (suc fuel) [] [] s r h = let (t, e) = next_end s r in rw (e, fill) (refl, refl)
  fill-Fills (suc fuel) [] (c ∷ cs) s r h =
      let (t, e, r') = next_message s c cs r in
      rw (e, fill) (weaken c cs (fill next fuel c t) (fill-Fills fuel c cs t r' (omega arith)))
    where
      weaken :
          (c : Str) (cs : List Str) (o : Ran (Buffered S) (Unit {0}))
          → Fills c cs o
          → Fills [] (c ∷ cs) o
      weaken c cs (returned u d) (ds, r, l, e, n) = (ds, r, l, e, omega arith)
      weaken c cs (failed e d) (n, q) = (n, q)

  -- A Read of up to `m` bytes gives a non-empty front of what is ahead and leaves the rest, or,
  -- where nothing is ahead, io.EOF.
  abbrev pub Reads : ℕ → Buffered S → List Str → Ran (Buffered S) Str → Type 0
  Reads m b cs (returned got d) =
      (ds : List Str) × Rest d.inner ds
      × (ahead b cs ≡ got ++ ahead d ds)
      × (0 < length got)
      × (length got ≤ m)
      × (length ds ≤ length cs)
  Reads m b cs (failed e d) = (ahead b cs ≡ []) × (e ≡ eof)

  read_filled :
      (m : ℕ) (b : Buffered S) (cs : List Str) (o : Ran (Buffered S) (Unit {0}))
      → 0 < m
      → Fills b.rbuf cs o
      → Reads m b cs (((λ (s : Buffered S). o) >> read_buffer next m) b)
  unfolding read_buffer
  read_filled m b cs (failed e d) pos f = f
  read_filled m b cs (returned u d) pos (ds, r, l, e, n) = (
    ds,
    r,
    e
        ∙ ap (λ q. q ++ concat ds) (sym (take-append-drop m d.rbuf))
        ∙ append_assoc (take m d.rbuf) (drop m d.rbuf) (concat ds),
    omega (arith, length-take m d.rbuf),
    omega (arith, length-take m d.rbuf),
    n,
  )

  pub read-Reads :
      (fuel m : ℕ) (b : Buffered S) (cs : List Str)
      → Rest b.inner cs
      → length cs < fuel
      → 0 < m
      → Reads m b cs (read next fuel m b)
  unfolding read
  read-Reads fuel m b cs r h pos =
      read_filled m b cs (fill next fuel b.rbuf b.inner) pos (fill-Fills fuel b.rbuf cs b.inner r h)

  -- io.Copy hands on all that is ahead and stops at the end of the stream without an error.
  copy_reads :
      (rounds fuel m : ℕ) (b : Buffered S) (cs : List Str)
      → Rest b.inner cs
      → length cs < fuel
      → 0 < m
      → length (ahead b cs) < rounds
      → (d : Buffered S) × (copy next rounds fuel m b ≡ returned (ahead b cs) d)
  unfolding copy
  copy_reads zero fuel m b cs r h pos w = absurd (omega arith)
  copy_reads (suc rounds) fuel m b cs r h pos w =
      go (read next fuel m b) refl (read-Reads fuel m b cs r h pos)
        (λ d ds r' h' w'. copy_reads rounds fuel m d ds r' h' pos w')
    where
      go :
          (o : Ran (Buffered S) Str)
          → read next fuel m b ≡ o
          → Reads m b cs o
          → ((d : Buffered S) (ds : List Str)
              → Rest d.inner ds
              → length ds < fuel
              → length (ahead d ds) < rounds
              → (d' : Buffered S) × (copy next rounds fuel m d ≡ returned (ahead d ds) d'))
          → (d : Buffered S) × (copy next (suc rounds) fuel m b ≡ returned (ahead b cs) d)
      go (failed e d) p (n, q) ih = (d, rw (p, copy, q, n))
      go (returned got d) p (ds, r', e, pos', le, n) ih =
          let (d', q) =
            ih d ds r' (omega arith)
              (omega (arith, ap (λ (x : Str). length x) e, length-append got (ahead d ds))) in
          (d', rw (p, copy, q, e))

  -- With rounds for every byte and a budget for every message `io.Copy` ends and loses nothing.
  pub copy_all :
      (m : ℕ) (s : S) (cs : List Str)
      → Rest s cs
      → 0 < m
      → (d : Buffered S) × (copy next
            (src.budget s)
            (src.budget s)
            m
            (record { inner = s; rbuf = [] })
          ≡ returned (concat cs) d)
  copy_all m s cs r pos =
      let bound : length cs + length (concat cs) < src.budget s = src.enough s cs r in
      copy_reads (src.budget s) (src.budget s) m (record { inner = s; rbuf = [] }) cs r
        (omega arith) pos (omega arith)
