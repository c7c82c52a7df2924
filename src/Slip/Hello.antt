-- ===== src/Slip/Hello.antt =====
-- wrapSlipstreamServer and wrapSlipstreamClient (internal/tunnel/runner.go): the hello that agrees
-- on the key. `digest` is crypto/sha256, and the nonce of 16 bytes is what crypto/rand gives.
use backhaul_recovered.Prelude.{
  ℕ, ◌≡◌, sym, ap, ◌∙◌, false, [], ◌++◌, length, take, drop, if◌then◌else◌, inl, inr, Bool-cases,
  arith,
}
use backhaul_recovered.Prelude.Text.{Str, codes, str_eq}
use backhaul_recovered.Net.{
  Conn, M, Ran, ◌>>=◌, ◌>>◌, returned, throw, read_full, write_, invalid_hello,
}
use backhaul_recovered.Net.Laws.{ReportsErrors, write_whole, returned_bind, read_full-append}
use backhaul_recovered.Slip.{Slip, new_slipstream_conn}

abbrev pub magic : Str
magic = codes "SLP1"

module _ (digest : Str → Str) where
  abbrev wrapped : Str → M Conn Slip
  wrapped key c = returned (new_slipstream_conn c key) c

  -- wrapSlipstreamServer
  unfoldable pub wrap_server : Str → M Conn Slip
  wrap_server nonce = read_full 20 >>= λ hello.
      if str_eq (take 4 hello) magic
      then write_ (magic ++ nonce) >> wrapped (digest (drop 4 hello ++ nonce))
      else throw invalid_hello

  -- wrapSlipstreamClient
  unfoldable pub wrap_client : Str → M Conn Slip
  wrap_client nonce =
      write_ (magic ++ nonce)
      >> (read_full 20 >>= λ reply.
          if str_eq (take 4 reply) magic
          then wrapped (digest (nonce ++ drop 4 reply))
          else throw invalid_hello)

  read_full_sent :
      (n : ℕ) (c d : Conn) (got : Str) → read_full n c ≡ returned got d → d.sent ≡ c.sent
  unfolding read_full
  read_full_sent n c d got e = ground arith

  client_sent :
      (nonce : Str) (c d : Conn) (k : Slip)
      → ReportsErrors c.script
      → wrap_client nonce c ≡ returned k d
      → d.sent ≡ c.sent ++ (magic ++ nonce)
  unfolding wrap_client
  client_sent nonce c d k rep e =
      let (u, c', w, f) = returned_bind (write_ (magic ++ nonce)) (λ _. rest) c e in
      let (reply, c'', r, g) = returned_bind (read_full 20) check c' f in
      kept reply c'' g
      ∙ read_full_sent 20 c' c'' reply r
      ∙ ap (λ (j : Conn). j.sent) (write_whole (magic ++ nonce) c c' rep w)
    where
      check : Str → M Conn Slip
      check reply =
          if str_eq (take 4 reply) magic
          then wrapped (digest (nonce ++ drop 4 reply))
          else throw invalid_hello

      rest : M Conn Slip
      rest = read_full 20 >>= check

      kept : (reply : Str) (j : Conn) → check reply j ≡ returned k d → d.sent ≡ j.sent
      kept reply j g = elim (Bool-cases (str_eq (take 4 reply) magic)) [
        | inl h ↦
            let e : wrapped (digest (nonce ++ drop 4 reply)) j ≡ returned k d = rw h at g in
            ground arith
        | inr h ↦
            let e : throw {S = Conn} {A = Slip} invalid_hello j ≡ returned k d = rw h at g in cc e
      ]

  -- Both halves: what a reader of the other end's hello has as its key.
  server_key :
      (mine other more : Str) (c d : Conn) (k : Slip)
      → length other ≡ 16
      → c.is_closed ≡ false
      → ReportsErrors c.script
      → c.incoming ≡ (magic ++ other) ++ more
      → wrap_server mine c ≡ returned k d
      → (k ≡ new_slipstream_conn d (digest (other ++ mine))) × (d.sent ≡ c.sent ++ (magic ++ mine))
  unfolding wrap_server
  server_key mine other more c d k l o rep i e =
      let got = read_full-append 20 (magic ++ other) more c (omega (arith, l)) o i in
      let f : (write_ (magic ++ mine) >> wrapped (digest (other ++ mine)))
            (record c { incoming = more })
          ≡ returned k d =
        ap (λ (o : Ran Conn Str). ((λ (j : Conn). o) >>= check) c) (sym got) ∙ e in
      let (u, c', w, g) =
        returned_bind (write_ (magic ++ mine)) (λ _. wrapped (digest (other ++ mine)))
          (record c { incoming = more }) f in
      let p = write_whole (magic ++ mine) (record c { incoming = more }) c' rep w in
      let (a, b) = finish c' g in (a, b ∙ ap (λ (j : Conn). j.sent) p)
    where
      check : Str → M Conn Slip
      check hello =
          if str_eq (take 4 hello) magic
          then write_ (magic ++ mine) >> wrapped (digest (drop 4 hello ++ mine))
          else throw invalid_hello

      finish :
          (j : Conn)
          → wrapped (digest (other ++ mine)) j ≡ returned k d
          → (k ≡ new_slipstream_conn d (digest (other ++ mine))) × (d.sent ≡ j.sent)
      finish j h =
          let e : j ≡ d = cc in
          let q : new_slipstream_conn j (digest (other ++ mine)) ≡ k = cc in
          (
            sym q ∙ ap (λ z. new_slipstream_conn z (digest (other ++ mine))) e,
            ap (λ (z : Conn). z.sent) (sym e),
          )

  client_key :
      (mine other more : Str) (c d : Conn) (k : Slip)
      → length other ≡ 16
      → c.is_closed ≡ false
      → ReportsErrors c.script
      → c.incoming ≡ (magic ++ other) ++ more
      → wrap_client mine c ≡ returned k d
      → k ≡ new_slipstream_conn d (digest (mine ++ other))
  unfolding wrap_client
  client_key mine other more c d k l o rep i e =
      let (u, c', w, f) = returned_bind (write_ (magic ++ mine)) (λ _. rest) c e in
      let p = write_whole (magic ++ mine) c c' rep w in
      let got =
        read_full-append 20 (magic ++ other) more c' (omega (arith, l))
          (ap (λ (j : Conn). j.is_closed) p ∙ o) (ap (λ (j : Conn). j.incoming) p ∙ i) in
      finish (record c' { incoming = more })
        (ap (λ (o : Ran Conn Str). ((λ (j : Conn). o) >>= check) c') (sym got) ∙ f)
    where
      check : Str → M Conn Slip
      check reply =
          if str_eq (take 4 reply) magic
          then wrapped (digest (mine ++ drop 4 reply))
          else throw invalid_hello

      rest : M Conn Slip
      rest = read_full 20 >>= check

      finish :
          (j : Conn)
          → wrapped (digest (mine ++ other)) j ≡ returned k d
          → k ≡ new_slipstream_conn d (digest (mine ++ other))
      finish j h =
          let e : j ≡ d = cc in
          let q : new_slipstream_conn j (digest (mine ++ other)) ≡ k = cc in
          sym q ∙ ap (λ z. new_slipstream_conn z (digest (mine ++ other))) e

-- Two ends of a connection that both wrap it with success, each reading what the other has sent on
-- fresh connections that report their errors, with nonces of 16 bytes, hold the same key, whatever
-- the digest is, and each reads from the place in the key stream where the other writes.
pub wrap_same_key :
    (digest : Str → Str) (client_nonce server_nonce more more' : Str) (c c' s s' : Conn)
    (k l : Slip)
    → length client_nonce ≡ 16
    → length server_nonce ≡ 16
    → ReportsErrors c.script
    → ReportsErrors s.script
    → c.sent ≡ []
    → s.sent ≡ []
    → c.is_closed ≡ false
    → s.is_closed ≡ false
    → wrap_client digest client_nonce c ≡ returned k c'
    → wrap_server digest server_nonce s ≡ returned l s'
    → s.incoming ≡ c'.sent ++ more
    → c.incoming ≡ s'.sent ++ more'
    → (k.key ≡ l.key) × (k.woff ≡ l.roff) × (l.woff ≡ k.roff)
unfolding new_slipstream_conn
wrap_same_key digest cn sn more more' c c' s s' k l hc hs rc rs fc fs oc os wc ws is ic =
    let p : c'.sent ≡ magic ++ cn =
      client_sent digest cn c c' k rc wc ∙ ap (λ (z : Str). z ++ (magic ++ cn)) fc in
    let (q, e) =
      server_key digest sn cn more s s' l hc os rs (is ∙ ap (λ (z : Str). z ++ more) p) ws in
    let e' : s'.sent ≡ magic ++ sn = e ∙ ap (λ (z : Str). z ++ (magic ++ sn)) fs in
    let r =
      client_key digest cn sn more' c c' k hs oc rc (ic ∙ ap (λ (z : Str). z ++ more') e') wc in
    (
      ap (λ (z : Slip). z.key) (r) ∙ sym (ap (λ (z : Slip). z.key) q),
      ap (λ (z : Slip). z.woff) r ∙ sym (ap (λ (z : Slip). z.roff) q),
      ap (λ (z : Slip). z.woff) q ∙ sym (ap (λ (z : Slip). z.roff) r),
    )
