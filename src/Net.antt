-- ===== src/Net.antt =====
-- Go's network connections as the code under internal/tunnel sees them: `net.Conn`, `io.Reader`,
-- `io.Writer`, `io.ReadFull` and `encoding/binary`, over explicit state.
--
-- A connection holds the bytes that its peer has sent and that nobody has read, the error that a
-- read meets behind them (the end of the stream, a deadline), the bytes written so far, and how
-- the next calls of Write go. Once that script is used up each Write takes all of its bytes.
pub mod Laws
use backhaul_recovered.Prelude.{
  ℕ, zero, suc, ◌+◌, ◌*◌, ◌/◌, ◌%◌, ◌^◌, ◌≡◌, Bool, true, false, Option, none, some, List, [], ◌∷◌,
  ◌++◌, length, take, drop, min, ltb, ◌==◌, if◌then◌else◌,
}
use backhaul_recovered.Prelude.Text.{Str}

pub data Error : Type 0 where
  -- io.EOF, io.ErrUnexpectedEOF, a deadline that has passed, net.ErrClosed
  eof unexpected_eof timed_out closed : Error
  -- a Write that the network refused
  refused : Error
  -- a panic, such as a send on a closed channel
  panicked : Error
  -- no Go value: a goroutine waits for ever for a lock that it holds itself
  deadlock : Error
  -- the errors that the code makes itself
  too_long invalid_token invalid_hello invalid_target frame_too_large : Error
  -- no Go value: the fuel of a loop ran out
  stuck : Error

-- A computation over the state `S` ends with a value or with an error; both keep the state.
pub data Ran {ℓ} (S : Type ℓ) (A : Type ℓ) : Type ℓ where
  returned : A → S → Ran S A
  failed : Error → S → Ran S A

abbrev pub M : Type 0 → Type 0 → Type 0
M S A = S → Ran S A

infixl 5 ◌>>=◌ ◌>>◌
abbrev pub ◌>>=◌ : {S A B : Type 0} → M S A → (A → M S B) → M S B
◌>>=◌ m f s = elim (m s) [ returned a t ↦ f a t | failed e t ↦ failed e t ]

abbrev pub ◌>>◌ : {S B : Type 0} → M S (Unit {0}) → M S B → M S B
m >> k = m >>= λ _. k

abbrev pub pure : {S A : Type 0} → A → M S A
pure a s = returned a s

abbrev pub throw : {S A : Type 0} → Error → M S A
throw e s = failed e s

-- `if err := m(); err != nil { cleanup; return err }`
abbrev pub on_error : {S A : Type 0} → (S → S) → M S A → M S A
on_error cleanup m s = elim (m s) [
  | returned a t ↦ returned a t
  | failed e t ↦ failed e (cleanup t)
]

-- `_ = m()`: the error is dropped.
abbrev pub ignore : {S A : Type 0} → M S A → M S (Unit {0})
ignore m s = elim (m s) [ returned a t ↦ returned tt t | failed e t ↦ returned tt t ]

-- A computation on one field of the state.
abbrev pub zoom : {S T A : Type 0} → (S → T) → (T → S → S) → M T A → M S A
zoom get put m s = elim (m (get s)) [
  | returned a t ↦ returned a (put t s)
  | failed e t ↦ failed e (put t s)
]

-- How one call of Write goes: it takes at most so many bytes and reports no error, or it takes at
-- most so many and then fails.
pub data Outcome : Type 0 where
  accepts refuses : ℕ → Outcome

pub record Conn : Type 0 where
  pub incoming : Str
  pub ends : Error
  pub sent : Str
  pub script : List Outcome
  pub is_closed : Bool

abbrev pub close : Conn → Conn
close c = record c { is_closed = true }

-- What io.ReadFull answers when the bytes run out: a stream that ends inside the wanted bytes is
-- told from one that ends before them.
abbrev pub short_read : Str → Error → Error
short_read [] e = e
short_read (b ∷ bs) eof = unexpected_eof
short_read (b ∷ bs) e = e

-- io.ReadFull into a buffer of `n` bytes. The bytes that were read are gone on an error too.
unfoldable pub read_full : ℕ → M Conn Str
read_full n c =
    if n == 0
    then returned [] c
    else if c.is_closed
    then failed closed c
    else if ltb (length c.incoming) n
    then failed (short_read c.incoming c.ends) (record c { incoming = [] })
    else returned (take n c.incoming) (record c { incoming = drop n c.incoming })

abbrev pub write_by : List Outcome → Str → M Conn ℕ
write_by [] p c = returned (length p) (record c { sent = c.sent ++ p })
write_by (accepts k ∷ rest) p c =
    returned (min k (length p)) (record c { sent = c.sent ++ take k p; script = rest })
write_by (refuses k ∷ rest) p c =
    failed refused (record c { sent = c.sent ++ take k p; script = rest })

-- One call of Write, and the number of bytes that it reports.
unfoldable pub write : Str → M Conn ℕ
write p c = if c.is_closed then failed closed c else write_by c.script p c

-- `if _, err := conn.Write(p); err != nil { return err }`
abbrev pub write_ : Str → M Conn (Unit {0})
write_ p = write p >>= λ _. pure tt

-- binary.BigEndian.PutUint16 after the conversion uint16(n).
abbrev pub put_uint16 : ℕ → Str
put_uint16 n = (n / 256 % 256) ∷ (n % 256) ∷ []

-- binary.BigEndian.Uint16. Go panics on a shorter slice; no caller passes one.
abbrev pub uint16 : Str → ℕ
uint16 (a ∷ b ∷ rest) = a * 256 + b
uint16 _ = 0

-- binary.BigEndian.PutUint32 after the conversion uint32(n).
abbrev pub put_uint32 : ℕ → Str
put_uint32 n = (n / 2 ^ 24 % 256) ∷ (n / 2 ^ 16 % 256) ∷ (n / 2 ^ 8 % 256) ∷ (n % 256) ∷ []

-- binary.BigEndian.Uint32.
abbrev pub uint32 : Str → ℕ
uint32 (a ∷ b ∷ c ∷ d ∷ rest) = a * 2 ^ 24 + b * 2 ^ 16 + c * 2 ^ 8 + d
uint32 _ = 0

-- binary.BigEndian.Uint64.
abbrev pub uint64 : Str → ℕ
uint64 (a ∷ b ∷ c ∷ d ∷ rest) = uint32 (a ∷ b ∷ c ∷ d ∷ []) * 2 ^ 32 + uint32 rest
uint64 _ = 0
