-- ===== src/UdpControl/Reading.antt =====
-- The Read of a udpControlConn (internal/tunnel/runner.go).
use backhaul_recovered.Prelude.{
  ℕ, suc, ◌≡◌, refl, sym, ap, ◌∙◌, Bool, true, false, Option, none, some, List, [], ◌∷◌, ◌++◌,
  length, take, drop, ◌&&◌, ◌==◌, if◌then◌else◌, arith, append_assoc, take-append-drop, ap₂,
}
use backhaul_recovered.Prelude.Text.{Str}
use backhaul_recovered.Net.{Ran, returned, failed, eof}
use backhaul_recovered.Stream.{concat}
use backhaul_recovered.UdpControl.{UdpConn, fill, give, read_conn}
use backhaul_recovered.UdpControl.Run.{state_of}

abbrev pub bytes_of : {S : Type 0} → Ran S (Option Str) → Str
bytes_of (returned (some got) t) = got
bytes_of (returned none t) = []
bytes_of (failed e t) = []

-- A Read hands on bytes from the front of what is pending.
abbrev pub Gives : Str → Ran UdpConn (Option Str) → Type 0
Gives before o = bytes_of o ++ ((state_of o).rbuf ++ concat (state_of o).queue) ≡ before

pub give_buffer :
    (m : ℕ) (c : UdpConn) → Gives (c.rbuf ++ concat c.queue) (give m (returned (some tt) c))
give_buffer m c =
    sym (append_assoc (take m c.rbuf) (drop m c.rbuf) (concat c.queue))
    ∙ ap (λ z. z ++ concat c.queue) (take-append-drop m c.rbuf)

pub nothing_given :
    (m : ℕ) (q : List Str) (c : UdpConn)
    → c.queue ≡ q
    → c.rbuf ≡ []
    → c.rbuf ++ concat c.queue ≡ concat q
nothing_given m q c e z = ap₂ (λ x y. x ++ concat y) z e

pub not_empty : (x : ℕ) (xs : Str) → (length (x ∷ xs) == 0) ≡ false
not_empty x xs = ground arith

pub fill-Gives :
    (b : ℕ → Bool) (m : ℕ) (q : List Str) (c : UdpConn)
    → c.queue ≡ q
    → c.rbuf ≡ []
    → Gives (concat q) (give m (fill b q c))
unfolding fill
fill-Gives b m [] c e z =
    elim c.is_closed as (λ k. Gives [] (give m (if k then failed eof c else returned none c))) [
      | true ↦ nothing_given m [] c e z
      | false ↦ nothing_given m [] c e z
    ]
fill-Gives b m (pkt ∷ rest) c e z =
    elim (c.is_closed && b 0)
      as (λ k. Gives (concat (pkt ∷ rest)) (give m (if k then failed eof c else going))) [
        | true ↦ nothing_given m (pkt ∷ rest) c e z
        | false ↦ taken pkt (fill-Gives next m rest later refl z)
      ]
  where
    next : ℕ → Bool
    next n = b (suc n)

    later : UdpConn
    later = record c { queue = rest }

    going : Ran UdpConn (Option (Unit {0}))
    going =
        if length pkt == 0
        then fill next rest later
        else returned (some tt) (record c { queue = rest; rbuf = pkt })

    taken :
        (p : Str)
        → Gives (concat rest) (give m (fill next rest later))
        → Gives (concat (p ∷ rest)) (
            give m (
              if length p == 0
              then fill next rest later
              else returned (some tt) (record c { queue = rest; rbuf = p })))
    taken [] g = g
    taken (x ∷ xs) g =
        rw (not_empty x xs) (give_buffer m (record c { queue = rest; rbuf = x ∷ xs }))

pub read-Gives :
    (b : ℕ → Bool) (m : ℕ) (c : UdpConn) → Gives (c.rbuf ++ concat c.queue) (read_conn b m c)
unfolding read_conn
read-Gives b m c = go c.rbuf refl
  where
    go :
        (buf : Str)
        → c.rbuf ≡ buf
        → Gives
            (buf ++ concat c.queue)
            (if length buf == 0 then give m (fill b c.queue c) else give m (returned (some tt) c))
    go [] e = fill-Gives b m c.queue c refl e
    go (x ∷ xs) e = rw (not_empty x xs) (give_buffer m c ∙ ap (λ z. z ++ concat c.queue) e)
