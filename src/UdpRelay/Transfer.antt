-- ===== src/UdpRelay/Transfer.antt =====
-- Datagrams of a public port passed on by the client (internal/tunnel/runner.go).
use backhaul_recovered.Prelude.{
  ℕ, zero, suc, ◌<◌, ◌≡◌, refl, sym, ap, ◌∙◌, subst, Bool, true, false, some, List, [], ◌∷◌, ◌++◌,
  map, length, take, arith, inl, inr, append_assoc, append-nil,
}
use backhaul_recovered.Prelude.Text.{Str}
use backhaul_recovered.Net.{Conn, Ran, returned, failed, ◌>>◌, ◌>>=◌}
use backhaul_recovered.Net.Laws.{ReportsErrors}
use backhaul_recovered.Datagram.Frames.{frame, read_datagram_frame_lem, read_datagram_frame_nothing}
use backhaul_recovered.UdpControl.Table.{lookup}
use backhaul_recovered.UdpRelay.{Relay, ClientRelay, on_control, pass_up, relay_up}
use backhaul_recovered.UdpRelay.Table.{Sound, datagrams, frames, run, Sent, run-Sent}

pass_one :
    (pkt rest : Str) (s : ClientRelay)
    → s.control.is_closed ≡ false
    → s.control.incoming ≡ frame pkt ++ rest
    → pass_up s
      ≡ returned tt (record s {
        control = record s.control { incoming = rest };
        passed = s.passed ++ take 65535 pkt ∷ [];
      })
unfolding pass_up
pass_one pkt rest s o e =
    ap
      (λ (r : Ran Conn Str).
        (on_control (λ (c : Conn). r) >>= λ p t.
        returned tt (record t { passed = t.passed ++ p ∷ [] }))
          s)
      (read_datagram_frame_lem pkt rest s.control o e)

pass_end :
    (s : ClientRelay)
    → s.control.is_closed ≡ false
    → s.control.incoming ≡ []
    → pass_up s ≡ failed s.control.ends (record s { control = record s.control { incoming = [] } })
unfolding pass_up
pass_end s o e =
    ap
      (λ (r : Ran Conn Str).
        (on_control (λ (c : Conn). r) >>= λ p t.
        returned tt (record t { passed = t.passed ++ p ∷ [] }))
          s)
      (read_datagram_frame_nothing s.control o e)

-- The loop has passed on the datagrams `pkts` when it meets the end of the connection.
abbrev pub Passed : List Str → ClientRelay → Ran ClientRelay (Unit {0}) → Type 0
Passed pkts s (returned u t) = ⊥
Passed pkts s (failed e t) = (t.passed ≡ s.passed ++ map (take 65535) pkts) × (e ≡ s.control.ends)

pass_all :
    (pkts : List Str) (fuel : ℕ) (s : ClientRelay)
    → length pkts < fuel
    → s.control.is_closed ≡ false
    → s.control.incoming ≡ frames pkts
    → Passed pkts s (relay_up fuel s)
unfolding relay_up
pass_all pkts zero s l o e = absurd (omega arith)
pass_all [] (suc fuel) s l o e =
    subst
      (λ (r : Ran ClientRelay (Unit {0})).
        Passed [] s (((λ (t : ClientRelay). r) >> relay_up fuel) s))
      (sym (pass_end s o e)) (sym (append-nil s.passed), refl)
pass_all (pkt ∷ pkts) (suc fuel) s l o e =
    let next : ClientRelay = record s {
      control = record s.control { incoming = frames pkts };
      passed = s.passed ++ take 65535 pkt ∷ [];
    } in
    subst
      (λ (r : Ran ClientRelay (Unit {0})).
        Passed (pkt ∷ pkts) s (((λ (t : ClientRelay). r) >> relay_up fuel) s))
      (sym (pass_one pkt (frames pkts) s o e))
      (joined (relay_up fuel next) (pass_all pkts fuel next (omega arith) o refl))
  where
    joined :
        (r : Ran ClientRelay (Unit {0}))
        → Passed pkts
            (record s {
              control = record s.control { incoming = frames pkts };
              passed = s.passed ++ take 65535 pkt ∷ [];
            })
            r
        → Passed (pkt ∷ pkts) s r
    joined (returned u t) k = k
    joined (failed x t) (k, q) =
        (k ∙ append_assoc s.passed (take 65535 pkt ∷ []) (map (take 65535) pkts), q)

-- Whatever datagrams come to a public port from whatever addresses: where the connection of the
-- address `src`, on which nothing was sent before and which reports its errors, is not closed by an
-- error, the client at its other end passes on the datagrams of `src`, and no other, in their order,
-- each cut to 65535 bytes, and then meets the end of the connection; rounds for each of them
-- are enough.
pub relay_up-run :
    (es : List (Bool × Str × Str)) (src : Str) (h fuel : ℕ) (s : Relay) (r : ClientRelay)
    → Sound s
    → lookup src s.assocs ≡ some h
    → (s.conn h).sent ≡ []
    → ReportsErrors (s.conn h).script
    → ((run es s).conn h).is_closed ≡ false
    → length (datagrams src es) < fuel
    → r.control.is_closed ≡ false
    → r.control.incoming ≡ ((run es s).conn h).sent
    → Passed (datagrams src es) r (relay_up fuel r)
relay_up-run es src h fuel s r v at fresh reports open_ l o e =
    go (
      run-Sent es src [] h (s.conn h) s v at
        (inr (sym (append-nil (s.conn h).sent), reports, refl)))
  where
    go :
        Sent (s.conn h) (frames (datagrams src es)) ((run es s).conn h)
        → Passed (datagrams src es) r (relay_up fuel r)
    go (inl shut) = absurd (clash shut open_)
      where
        clash : ((run es s).conn h).is_closed ≡ true → ((run es s).conn h).is_closed ≡ false → ⊥
        clash a b = cc (sym a ∙ b)
    go (inr (sent, rep, same)) =
        pass_all (datagrams src es) fuel r l o
          (e ∙ sent ∙ ap (λ (z : Str). z ++ frames (datagrams src es)) fresh)
