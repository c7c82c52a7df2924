-- ===== src/Transport/Kinds.antt =====
-- The kinds of transport that there are.
use backhaul_recovered.Prelude.{
  ℕ, ◌+◌, ◌≡◌, refl, sym, ap, ◌∙◌, Bool, true, ◌||◌, ◌&&◌, not, leb, ◌==◌, some, List, [], ◌∷◌,
  if◌then◌else◌, Bool-cases, inl, inr, arith,
}
use backhaul_recovered.Prelude.Text.{Str}
use backhaul_recovered.Strings.{trim_space, to_lower}
use backhaul_recovered.Transport.{TransportKind, one_of, cases, select, parse_transport}

abbrev pub count : Bool → ℕ
count b = if b then 1 else 0

-- The protocols that carry the bytes exclude each other, a DNS tunnel runs over UDP, and there is
-- no TLS over UDP, KCP or the slipstream cipher.
abbrev pub is_consistent : TransportKind → Bool
is_consistent k =
    leb (count k.ws + count k.http + count k.grpc + count k.kcp + count k.slip + count k.udp) 1
    && ((not k.dns || k.udp) && (not k.tls || count k.udp + count k.kcp + count k.slip == 0))

abbrev all_consistent : List (List Str × TransportKind) → Bool
all_consistent [] = true
all_consistent ((names, k) ∷ rows) = is_consistent k && all_consistent rows

left_true : (a b : Bool) → (a && b) ≡ true → a ≡ true
left_true a b e = ground arith

right_true : (a b : Bool) → (a && b) ≡ true → b ≡ true
right_true a b e = ground arith

select_consistent :
    (t : Str) (rows : List (List Str × TransportKind)) (k : TransportKind)
    → all_consistent rows ≡ true
    → select t rows ≡ some k
    → is_consistent k ≡ true
select_consistent t [] k h e = cc
select_consistent t ((names, kind) ∷ rows) k h e = elim (Bool-cases (one_of t names)) [
  | inl hit ↦
      let found : kind ≡ k =
        some-inj kind k (sym (ap (λ b. if b then some kind else select t rows) hit) ∙ e) in
      ap is_consistent (sym found) ∙ left_true (is_consistent kind) (all_consistent rows) h
  | inr miss ↦
      select_consistent t rows k (right_true (is_consistent kind) (all_consistent rows) h)
        (sym (ap (λ b. if b then some kind else select t rows) miss) ∙ e)
]
  where
    some-inj : (a b : TransportKind) → some a ≡ some b → a ≡ b
    some-inj a b q = cc

-- A name that parseTransport accepts stands for at most one of WebSocket, HTTP, gRPC, KCP,
-- slipstream and UDP; a DNS transport is a UDP one; and TLS is asked of none of UDP, KCP and
-- slipstream.
pub parse_transport_consistent :
    (raw : Str) (k : TransportKind) → parse_transport raw ≡ some k → is_consistent k ≡ true
unfolding parse_transport
parse_transport_consistent raw k e = select_consistent (to_lower (trim_space raw)) cases k refl e
