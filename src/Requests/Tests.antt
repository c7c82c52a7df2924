-- ===== src/Requests/Tests.antt =====
-- A request on concrete bytes: the first worker of the pool is closed.
use backhaul_recovered.Prelude.{◌≡◌, refl, ℕ, Bool, true, false, some, [], ◌∷◌, ◌++◌, ◌==◌, inl}
use backhaul_recovered.Prelude.Text.{Str, codes}
use backhaul_recovered.Strings.{is_space}
use backhaul_recovered.Net.{Conn, eof, returned, write}
use backhaul_recovered.Requests.{WorkerServer, acquire, acquire_from, request, relays, read_order}
use backhaul_recovered.Requests.Workers.{Ready, read_order-acquire}

abbrev with_bytes : Str → Bool → Conn
with_bytes bytes is_closed = record {
  incoming = bytes;
  ends = eof;
  sent = [];
  script = [];
  is_closed = is_closed;
}

abbrev waiting : WorkerServer
waiting = record { pool = 1 ∷ 2 ∷ []; conn = λ h. with_bytes [] (h == 1); done = false }

abbrev after : WorkerServer
after = (acquire true (codes "db:53") waiting).1

waiting-Ready : (v : ℕ) → Ready (waiting.conn v)
waiting-Ready v = inl (refl, tt)

acquires : acquire true (codes "db:53") waiting ≡ (some 2, after)
unfolding acquire acquire_from request write
acquires = refl

read_order-acquire_example :
    read_order (with_bytes ((after.conn 2).sent ++ codes "x") false)
    ≡ returned (relays (codes "db:53")) (with_bytes (codes "x") false)
unfolding is_space
read_order-acquire_example =
    read_order-acquire true (codes "db:53") (codes "x") waiting after 2
      (with_bytes ((after.conn 2).sent ++ codes "x") false)
      (refl, (refl, (refl, (refl, (refl, tt))))) (λ e. cc) waiting-Ready acquires refl refl
