-- ===== src/Slip/Laws.antt =====
-- The two ends of a slipstream connection (internal/tunnel/runner.go).
use backhaul_recovered.Prelude.{
  ℕ, ◌+◌, ◌%◌, ◌^◌, ◌<◌, ◌≡◌, sym, ap, ◌∙◌, subst, List, [], ◌∷◌, ◌++◌, length, arith, All,
  append_assoc, append-nil, false, inl, inr, ◌≢◌,
}
use backhaul_recovered.Prelude.Text.{Str}
use backhaul_recovered.Net.{
  Conn, M, Ran, ◌>>◌, pure, returned, failed, write_, put_uint16, eof, stuck, write,
}
use backhaul_recovered.Net.Laws.{
  zoom_returned, write_whole_two, ReportsErrors, Wrote, failed_bind, write-Wrote,
}
use backhaul_recovered.Stream.{Buffered, concat, write_each}
use backhaul_recovered.Stream.Laws.{copy_all}
use backhaul_recovered.Stream.Chunks.{
  Emitted, none_sent, one_sent, write_each-Emitted, write_stream-ne-stuck,
}
use backhaul_recovered.Slip.{Slip, on_conn, xor, encipher, emit, slip_copy, slip_write}
use backhaul_recovered.Slip.Messages.{length-xor, message, messages, Fits, Rest, slip_source}

emit_lem :
    (c : Str) (s t : Slip) {o : Unit {0}}
    → ReportsErrors s.conn.script
    → emit c s ≡ returned o t
    → t ≡ record s {
      conn = record s.conn { sent = s.conn.sent ++ message s.key s.woff c };
      woff = (s.woff + length c) % 2 ^ 64;
    }
unfolding emit
emit_lem c s t r h =
    let enc : Str = xor s.key c s.woff in
    let s' : Slip = record s { woff = (s.woff + length c) % 2 ^ 64 } in
    let (d, w, q) =
      zoom_returned (λ (k : Slip). k.conn) (λ e k. record k { conn = e })
        (write_ (put_uint16 (length enc)) >> write_ enc) s' h in
    q
    ∙ ap (λ (e : Conn). record s' { conn = e })
        (write_whole_two (put_uint16 (length enc)) enc s.conn d r w
          ∙ ap (λ n. record s.conn { sent = s.conn.sent ++ (put_uint16 n ++ enc) })
              (length-xor s.key c s.woff))

-- What a writer has put on the connection is a row of messages that a reader at its position takes.
Emitted-messages :
    (s t : Slip) (cs : List Str)
    → ReportsErrors s.conn.script
    → Emitted emit 65535 s cs t
    → (t.conn.sent ≡ s.conn.sent ++ messages s.key s.woff cs) × All Fits cs
Emitted-messages s t [] r (none_sent e) =
    (ap (λ (k : Slip). k.conn.sent) (sym e) ∙ sym (append-nil s.conn.sent), tt)
Emitted-messages s t (c ∷ cs) r (one_sent {t = u} e l h) =
    let w = emit_lem c s u r e in
    let (q, f) =
      Emitted-messages u t cs (subst (λ (k : Slip). ReportsErrors k.conn.script) (sym w) r) h in
    (
      q
          ∙ ap (λ (k : Slip). k.conn.sent ++ messages k.key k.woff cs) w
          ∙ append_assoc s.conn.sent (message s.key s.woff c)
              (messages s.key ((s.woff + length c) % 2 ^ 64) cs),
      (l, f),
    )

-- Whatever Writes one end makes, if they report success, the other end's reader gets exactly their
-- bytes joined, by Reads of any size `m`, and then the end of the stream: for two ends with one
-- key, the reader where the writer began, on a connection that reports its errors.
pub slip_transfer :
    (ps : List Str) (m : ℕ) (s t r : Slip) {o : Unit {0}}
    → 0 < m
    → ReportsErrors s.conn.script
    → s.conn.sent ≡ []
    → s.key ≡ r.key
    → s.woff ≡ r.roff
    → s.woff < 2 ^ 64
    → write_each emit 65535 ps s ≡ returned o t
    → r.conn.is_closed ≡ false
    → r.conn.ends ≡ eof
    → r.conn.incoming ≡ t.conn.sent
    → (d : Buffered Slip) × (slip_copy m (record { inner = r; rbuf = [] }) ≡ returned (concat ps) d)
unfolding slip_copy
slip_transfer ps m s t r pos rep fresh key at bound w open_ ends wire =
    let (cs, em, c) = write_each-Emitted emit 65535 (omega arith) ps s t w in
    let (q, f) = Emitted-messages s t cs rep em in
    let behind : Rest r cs = record {
      is_open = open_;
      at_end = ends;
      bytes =
          wire
          ∙ q
          ∙ ap (λ z. z ++ messages s.key s.woff cs) fresh
          ∙ ap (λ k. messages k s.woff cs) key
          ∙ ap (λ k. messages r.key k cs) at;
      fits = f;
      position = omega arith;
    } in
    let (d, e) = copy_all slip_source m r cs behind pos in (d, e ∙ ap (λ z. returned z d) c)

write_-ne-stuck : (p : Str) (c d : Conn) → write_ p c ≢ failed stuck d
write_-ne-stuck p c d e = elim (failed_bind (write p) (λ _. pure tt) c e) [
  | inl f ↦ no_stuck (write p c) (write-Wrote p c) f
  | inr (n, t, _, f) ↦ cc f
]
  where
    no_stuck : (o : Ran Conn ℕ) → Wrote c p o → o ≢ failed stuck d
    no_stuck (returned n t) w f = cc f
    no_stuck (failed x t) w f = w.2 (cc)

emit-ne-stuck : (c : Str) (s t : Slip) → emit c s ≢ failed stuck t
unfolding emit encipher
emit-ne-stuck c s t e = go (both s.conn) (λ d f. both_no_stuck d f) e
  where
    enc : Str
    enc = xor s.key c s.woff

    both : M Conn (Unit {0})
    both = write_ (put_uint16 (length enc)) >> write_ enc

    both_no_stuck : (d : Conn) → both s.conn ≢ failed stuck d
    both_no_stuck d f =
        elim (failed_bind (write_ (put_uint16 (length enc))) (λ _. write_ enc) s.conn f) [
          | inl g ↦ write_-ne-stuck (put_uint16 (length enc)) s.conn d g
          | inr (u, k, _, g) ↦ write_-ne-stuck enc k d g
        ]

    go :
        (o : Ran Conn (Unit {0}))
        → ((d : Conn) → o ≢ failed stuck d)
        → (on_conn (λ (k : Conn). o)) (record s { woff = (s.woff + length c) % 2 ^ 64 })
          ≢ failed stuck t
    go (returned u d) n f = cc f
    go (failed x d) n f = n d (cc)

-- slipstreamConn.Write ends for every slice and every connection: the fuel of its loop is enough.
pub slip_write-ne-stuck : (p : Str) (s t : Slip) → slip_write p s ≢ failed stuck t
unfolding slip_write
slip_write-ne-stuck p s t = write_stream-ne-stuck emit 65535 (omega arith) p s t emit-ne-stuck
