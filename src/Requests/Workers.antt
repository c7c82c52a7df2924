-- ===== src/Requests/Workers.antt =====
-- The workers of a server of runWorkerServer (internal/tunnel/runner.go): who is one, and what a
-- request leaves behind.
use backhaul_recovered.Prelude.{
  ◌≡◌, ◌≢◌, refl, sym, ap, ◌∙◌, subst, ℕ, Bool, true, false, Option, some, List, [], ◌∷◌, ◌++◌,
  ◌==◌, arith, Bool-cases, inl, inr, ◌⊎◌,
}
use backhaul_recovered.Prelude.Text.{Str}
use backhaul_recovered.Net.{Conn, returned, failed, Ran, Error, write, write_}
use backhaul_recovered.Net.Laws.{ReportsErrors, write_whole}
use backhaul_recovered.Handshake.Lines.{IsWord}
use backhaul_recovered.Requests.{
  request, WorkerServer, set_conn, acquire_from, acquire, asked, refuse, read_order,
}
use backhaul_recovered.Requests.Lines.{order, read_order-request}

-- A worker that has been sent nothing, on a connection that reports its errors; or one that was
-- closed.
abbrev pub Ready : Conn → Type 0
Ready c = ((c.sent ≡ []) × ReportsErrors c.script) ⊎ (c.is_closed ≡ true)

closed_refuses : (line : Str) (c d : Conn) → c.is_closed ≡ true → write_ line c ≢ returned tt d
unfolding write
closed_refuses line c d o e = cc (rw o at e)

written : (line : Str) (c d : Conn) → Ready c → write_ line c ≡ returned tt d → d.sent ≡ line
written line c d (inl (fresh, reports)) e =
    ap (λ (k : Conn). k.sent) (write_whole line c d reports e) ∙ ap (λ (z : Str). z ++ line) fresh
written line c d (inr o) e = absurd (closed_refuses line c d o e)

refuse-Ready :
    (v g : ℕ) (e : Error) (c : Conn) (s : WorkerServer)
    → ((u : ℕ) → Ready (s.conn u))
    → Ready ((refuse v (failed e c) s).conn g)
refuse-Ready v g e c s ready = elim (Bool-cases (v == g)) [
  | inl same ↦ rw same (inr refl)
  | inr other ↦ rw other (ready g)
]

own_conn : (w : ℕ) (c : Conn) (s : WorkerServer) → (set_conn w c s).conn w ≡ c
own_conn w c s = ground arith

-- The worker of the answer has been sent the line and nothing else.
told :
    (ws : List ℕ) (line : Str) (s t : WorkerServer) (w : ℕ)
    → ((v : ℕ) → Ready (s.conn v))
    → acquire_from ws line s ≡ (some w, t)
    → (t.conn w).sent ≡ line
unfolding acquire_from
told [] line s t w ready e = cc
told (v ∷ ws) line s t w ready e =
    go (write_ line (s.conn v)) refl (λ u r q. told ws line u t w r q) e
  where
    go :
        (o : Ran Conn (Unit {0}))
        → write_ line (s.conn v) ≡ o
        → ((u : WorkerServer)
            → ((g : ℕ) → Ready (u.conn g))
            → acquire_from ws line u ≡ (some w, t)
            → (t.conn w).sent ≡ line)
        → asked v o (record s { pool = ws }) (acquire_from ws line (refuse v o s)) ≡ (some w, t)
        → (t.conn w).sent ≡ line
    go (returned u c) q ih f =
        let who : some v ≡ some w = ap (λ (z : Option ℕ × WorkerServer). z.0) f in
        let same : v ≡ w = cc in
        let after : WorkerServer = set_conn v c (record s { pool = ws }) in
        ap (λ (z : Option ℕ × WorkerServer). (z.1.conn w).sent) (sym f)
        ∙ subst (λ (k : ℕ). (after.conn k).sent ≡ line) same
            (ap (λ (k : Conn). k.sent) (own_conn v c (record s { pool = ws }))
              ∙ written line (s.conn v) c (ready v) q)
    go (failed x c) q ih f = ih (refuse v (failed x c) s) (λ g. refuse-Ready v g x c s ready) f

-- The request that an acquire function of runWorkerServer reports as sent to a worker, from workers
-- that have been sent nothing and whose connections report their errors, whichever of them fail:
-- the client that reads it dials the target, or relays datagrams to it where it was for UDP, and
-- has read no byte behind the request. The target is not empty and has no blank.
pub read_order-acquire :
    (udp : Bool) (target rest : Str) (s t : WorkerServer) (w : ℕ) (r : Conn)
    → IsWord target
    → target ≢ []
    → ((v : ℕ) → Ready (s.conn v))
    → acquire udp target s ≡ (some w, t)
    → r.is_closed ≡ false
    → r.incoming ≡ (t.conn w).sent ++ rest
    → read_order r ≡ returned (order udp target) (record r { incoming = rest })
unfolding acquire
read_order-acquire udp target rest s t w r h n ready e o i =
    read_order-request udp target rest r h n o
      (i ∙ ap (λ (z : Str). z ++ rest) (told s.pool (request udp target) s t w ready e))
