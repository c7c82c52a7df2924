-- ===== src/UdpControl/Locks.antt =====
-- The Close of a udpControlListener (internal/tunnel/runner.go), under its lock.
use backhaul_recovered.Prelude.{ℕ, ◌≡◌, ◌≢◌, refl, ap, ◌∙◌, true, false, some, List, [], ◌∷◌}
use backhaul_recovered.Prelude.Text.{Str, str_eq_refl}
use backhaul_recovered.Net.{Ran, ◌>>◌, returned, failed, deadlock}
use backhaul_recovered.UdpControl.Table.{lookup, delete}
use backhaul_recovered.UdpControl.{
  Listener, set_cell, lock, unlock, remove, close_local, close_each, close_listener,
}
use backhaul_recovered.UdpControl.Invariant.{Inv, lock_free}

-- A goroutine that holds the lock and takes it again.
lock_held : (l : Listener) → l.mu ≡ true → lock l ≡ failed deadlock l
unfolding lock
lock_held l m = rw m

remove_held : (key : Str) (l : Listener) → l.mu ≡ true → remove key l ≡ failed deadlock l
unfolding remove unlock
remove_held key l m =
    ap
      (λ (o : Ran Listener (Unit {0})).
        ((λ (x : Listener). o)
            >> (λ k. returned tt (record k { conns = delete key k.conns }))
            >> unlock)
          l)
      (lock_held l m)

abbrev marked : ℕ → Listener → Listener
marked h l = set_cell h (record (l.cell h) { is_closed = true }) l

close_local_held :
    (h : ℕ) (l : Listener)
    → l.mu ≡ true
    → (l.cell h).is_closed ≡ false
    → close_local h l ≡ failed deadlock (marked h l)
unfolding close_local
close_local_held h l m o = rw o (remove_held (l.cell h).key (marked h l) m)

close_each_held :
    (key : Str) (h : ℕ) (rest : List (Str × ℕ)) (l : Listener)
    → l.mu ≡ true
    → (l.cell h).is_closed ≡ false
    → close_each ((key, h) ∷ rest) l ≡ failed deadlock (marked h l)
unfolding close_each
close_each_held key h rest l m o =
    ap (λ (r : Ran Listener (Unit {0})). ((λ (x : Listener). r) >> close_each rest) l)
      (close_local_held h l m o)

-- Close with a connection first in the table that is open.
close_listener_held :
    (l : Listener) (key : Str) (h : ℕ) (rest : List (Str × ℕ))
    → l.conns ≡ (key, h) ∷ rest
    → l.is_closed ≡ false
    → l.mu ≡ false
    → (l.cell h).is_closed ≡ false
    → (t : Listener) × (close_listener l ≡ failed deadlock t)
unfolding close_listener unlock
close_listener_held l key h rest e fresh m o =
    (marked h held, rw fresh (from_lock (lock_free begun m)))
  where
    begun : Listener
    begun = record l { is_closed = true }

    held : Listener
    held = record begun { mu = true }

    run_after : Ran Listener (Unit {0}) → Ran Listener (Unit {0})
    run_after r =
        ((λ (x : Listener). r)
            >> (λ k. close_each k.conns k)
            >> (λ k. returned tt (record k { conns = [] }))
            >> unlock)
          begun

    finish : Ran Listener (Unit {0}) → Ran Listener (Unit {0})
    finish r =
        ((λ (x : Listener). r) >> (λ k. returned tt (record k { conns = [] })) >> unlock) held

    from_lock :
        lock begun ≡ returned tt held → run_after (lock begun) ≡ failed deadlock (marked h held)
    from_lock q =
        ap run_after q
        ∙ ap (λ z. finish (close_each z held)) e
        ∙ ap finish (close_each_held key h rest held refl o)

listed : (key : Str) (h : ℕ) (rest : List (Str × ℕ)) → lookup key ((key, h) ∷ rest) ≡ some h
unfolding lookup
listed key h rest = rw (str_eq_refl key)

-- The bug: Close of a sound listener with any connection in its table takes the lock and then, in
-- closeLocal and remove, takes it again, and so waits for ever.
pub close_listener_deadlocks :
    (l : Listener)
    → Inv l
    → l.is_closed ≡ false
    → l.conns ≢ []
    → (t : Listener) × (close_listener l ≡ failed deadlock t)
close_listener_deadlocks l v fresh some_conn = go l.conns refl
  where
    go :
        (table : List (Str × ℕ))
        → l.conns ≡ table
        → (t : Listener) × (close_listener l ≡ failed deadlock t)
    go [] e = absurd (some_conn e)
    go ((key, h) ∷ rest) e =
        let (b, k, o) = v.entries key h (ap (lookup key) e ∙ listed key h rest) in
        close_listener_held l key h rest e fresh v.free o
