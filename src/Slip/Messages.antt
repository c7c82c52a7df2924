-- ===== src/Slip/Messages.antt =====
-- The messages of a slipstreamConn (internal/tunnel/runner.go) and its reader.
use backhaul_recovered.Prelude.{
  ℕ, suc, ◌+◌, ◌%◌, ◌^◌, ◌<◌, ◌≤◌, ◌≡◌, refl, ap, ◌∙◌, List, [], ◌∷◌, ◌++◌, length, get_or, arith,
  All, length-append, false,
}
use backhaul_recovered.Prelude.Text.{Str}
use backhaul_recovered.Prelude.Bits.{bit_xor_twice}
use backhaul_recovered.Net.{returned, failed, read_full, put_uint16, eof}
use backhaul_recovered.Net.Laws.{read_full-append, read_full_short, uint16-put}
use backhaul_recovered.Stream.{concat, Source}
use backhaul_recovered.Slip.{Slip, xor, next_message, budget}

pub xor-nil : (key : Str) (offset : ℕ) → xor key [] offset ≡ []
unfolding xor
xor-nil key offset = refl

pub length-xor : (key bs : Str) (offset : ℕ) → length (xor key bs offset) ≡ length bs
unfolding xor
length-xor key [] offset = refl
length-xor key (b ∷ bs) offset = ap suc (length-xor key bs (offset + 1))

-- The same key stream takes the cipher off again.
pub xor-xor : (key bs : Str) (offset : ℕ) → xor key (xor key bs offset) offset ≡ bs
unfolding xor
xor-xor key [] offset = refl
xor-xor key (b ∷ bs) offset =
    cc (bit_xor_twice b (get_or key (offset % 2 ^ 64 % length key) 0), xor-xor key bs (offset + 1))

-- The bytes of one message and of a row of messages, from a position of the key stream.
abbrev pub message : Str → ℕ → Str → Str
message key offset c = put_uint16 (length c) ++ xor key c offset

abbrev pub messages : Str → ℕ → List Str → Str
messages key offset [] = []
messages key offset (c ∷ cs) =
    message key offset c ++ messages key ((offset + length c) % 2 ^ 64) cs

abbrev pub Fits : Str → Type 0
Fits c = length c ≤ 65535

-- Behind a reader stand the messages `cs`, ciphered from its position on, and then the end.
pub record Rest (s : Slip) (cs : List Str) : Type 0 where
  pub is_open : s.conn.is_closed ≡ false
  pub at_end : s.conn.ends ≡ eof
  pub bytes : s.conn.incoming ≡ messages s.key s.roff cs
  pub fits : All Fits cs
  pub position : s.roff < 2 ^ 64

pub next_message_lem :
    (s : Slip) (c : Str) (cs : List Str)
    → Rest s (c ∷ cs)
    → (t : Slip) × (next_message s ≡ returned c t) × Rest t cs
unfolding next_message
next_message_lem s [] cs r = (
  record s { conn = record s.conn { incoming = messages s.key s.roff cs } },
  ground (arith, header, same),
  record {
    is_open = r.is_open;
    at_end = r.at_end;
    bytes = refl;
    fits = r.fits.1;
    position = r.position;
  },
)
  where
    same : (s.roff + 0) % 2 ^ 64 ≡ s.roff
    same = omega (arith, r.position)

    header :
        read_full 2 s.conn
        ≡ returned (0 ∷ 0 ∷ []) (record s.conn { incoming = messages s.key s.roff cs })
    header = read_full-append 2 (0 ∷ 0 ∷ []) (messages s.key s.roff cs) s.conn refl r.is_open (
        r.bytes
        ∙ ap (λ (q : Str). 0 ∷ 0 ∷ (q ++ messages s.key ((s.roff + 0) % 2 ^ 64) cs))
            (xor-nil s.key s.roff)
        ∙ ap (λ k. 0 ∷ 0 ∷ messages s.key k cs) same)
next_message_lem s (b ∷ bs) cs r = (
  record s { conn = record s.conn { incoming = later }; roff = (s.roff + n) % 2 ^ 64 },
  ground (
    arith,
    header,
    payload,
    uint16-put n [] (omega (arith, r.fits)),
    length-xor s.key (b ∷ bs) s.roff,
    xor-xor s.key (b ∷ bs) s.roff,
  ),
  record {
    is_open = r.is_open;
    at_end = r.at_end;
    bytes = refl;
    fits = r.fits.1;
    position = omega arith;
  },
)
  where
    n : ℕ
    n = length (b ∷ bs)

    later : Str
    later = messages s.key ((s.roff + n) % 2 ^ 64) cs

    enc : Str
    enc = xor s.key (b ∷ bs) s.roff

    header :
        read_full 2 s.conn ≡ returned (put_uint16 n) (record s.conn { incoming = enc ++ later })
    header = read_full-append 2 (put_uint16 n) (enc ++ later) s.conn refl r.is_open r.bytes

    payload :
        read_full n (record s.conn { incoming = enc ++ later })
        ≡ returned enc (record s.conn { incoming = later })
    payload =
        read_full-append n enc later (record s.conn { incoming = enc ++ later })
          (length-xor s.key (b ∷ bs) s.roff) r.is_open refl

pub next_end : (s : Slip) → Rest s [] → (t : Slip) × (next_message s ≡ failed eof t)
unfolding next_message
next_end s r = (
  record s { conn = record s.conn { incoming = [] } },
  ground (arith, read_full_short 2 s.conn, r.bytes, r.is_open, r.at_end),
)

pub length-messages :
    (key : Str) (offset : ℕ) (cs : List Str)
    → length cs + length (concat cs) ≤ length (messages key offset cs)
length-messages key offset [] = omega arith
length-messages key offset (c ∷ cs) = omega (
  arith,
  length-append (message key offset c) (messages key ((offset + length c) % 2 ^ 64) cs),
  length-append c (concat cs),
  length-xor key c offset,
  length-messages key ((offset + length c) % 2 ^ 64) cs,
)

pub enough : (s : Slip) (cs : List Str) → Rest s cs → length cs + length (concat cs) < budget s
enough s cs r = omega (arith, ap (λ (q : Str). length q) r.bytes, length-messages s.key s.roff cs)

abbrev pub slip_source : Source Slip
slip_source = record {
  next = next_message;
  Rest = Rest;
  budget = budget;
  next_message = next_message_lem;
  next_end = next_end;
  enough = enough;
}
