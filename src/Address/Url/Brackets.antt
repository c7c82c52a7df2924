-- ===== src/Address/Url/Brackets.antt =====
-- URLs with an IPv6 address for a host (internal/tunnel/runner.go).
use backhaul_recovered.Prelude.{
  refl, if◌then◌else◌, ◌≡◌, ap, ◌∙◌, Bool, true, Option, none, some, [], ◌∷◌, ◌++◌, arith,
  append_assoc,
}
use backhaul_recovered.Prelude.Text.{Str, codes}
use backhaul_recovered.Prelude.Result.{ok}
use backhaul_recovered.Strings.{contains_byte, has_prefix, cut}
use backhaul_recovered.Strings.Laws.{cut-append, contains_byte-append}
use backhaul_recovered.Address.{
  join_host_port, no_brackets, behind_bracket, split_bracket, split_host_port,
}
use backhaul_recovered.Address.Url.{
  Urls, default_of, host_or_join, host_port, resolve_http_control_host_port, resolve_grpc_target,
}

abbrev pub in_brackets : Str → Str
in_brackets h = b'[' ∷ (h ++ (b']' ∷ []))

bracketed_no_port : (h : Str) → no_brackets h ≡ true → split_host_port (in_brackets h) ≡ none
unfolding no_brackets split_host_port split_bracket behind_bracket
bracketed_no_port h b = ground (arith, cut-append b']' h [] (ground (arith, b)))

-- The host `h` in two pairs of brackets, with a port behind them.
abbrev pub twice_bracketed : Str → Str → Str
twice_bracketed h port = b'[' ∷ b'[' ∷ (h ++ (codes "]]:" ++ port))

join-in_brackets :
    (h port : Str)
    → contains_byte b':' h ≡ true
    → join_host_port (in_brackets h) port ≡ twice_bracketed h port
unfolding join_host_port contains_byte
join-in_brackets h port c =
    let inside : contains_byte b':' (b'[' ∷ (h ++ (b']' ∷ []))) ≡ true =
      ground (arith, contains_byte-append b':' h (b']' ∷ []), c) in
    let back : (h ++ (b']' ∷ [])) ++ (b']' ∷ (b':' ∷ port)) ≡ h ++ (b']' ∷ (b']' ∷ (b':' ∷ port))) =
      append_assoc h (b']' ∷ []) (b']' ∷ (b':' ∷ port)) in
    rw inside (rw back refl)

split-twice_bracketed :
    (h port : Str) → no_brackets h ≡ true → split_host_port (twice_bracketed h port) ≡ none
unfolding no_brackets split_host_port split_bracket behind_bracket cut
split-twice_bracketed h port b =
    let cutting : cut b']' (h ++ (b']' ∷ (b']' ∷ (b':' ∷ port)))) ≡ some (h, b']' ∷ (b':' ∷ port)) =
      cut-append b']' h (b']' ∷ (b':' ∷ port)) (ground (arith, b)) in
    ground (arith, cutting)

host_port_bracketed :
    (urls : Urls) (h : Str) (secure : Bool) (o : Option urls.Url) (u : urls.Url)
    → o ≡ some u
    → urls.host u ≡ in_brackets h
    → no_brackets h ≡ true
    → contains_byte b':' h ≡ true
    → host_port urls secure o ≡ ok (twice_bracketed h (if secure then codes "443" else codes "80"))
host_port_bracketed urls h secure o u e x b c =
    ap (host_port urls secure) e
    ∙ rw x (ap (λ z. ok (host_or_join secure (in_brackets h) z)) (bracketed_no_port h b))
    ∙ ap ok (join-in_brackets h (default_of secure) c)

-- The bug: where remote addresses that begin with `http://` and `grpc://` are URLs with the host
-- `[h]`, an IPv6 address in brackets without a port, with a colon and no bracket in `h`,
-- resolveHTTPControlHostPort and resolveGRPCTarget give `[[h]]:443`, or `[[h]]:80` where the
-- transport is not secure: the default port behind a second pair of brackets. net.SplitHostPort
-- refuses it.
pub resolve_bracketed :
    (urls : Urls) (http grpc h : Str) (secure : Bool) (u v : urls.Url)
    → has_prefix (codes "http://") http ≡ true
    → has_prefix (codes "grpc://") grpc ≡ true
    → urls.parse http ≡ some u
    → urls.parse grpc ≡ some v
    → urls.host u ≡ in_brackets h
    → urls.host v ≡ in_brackets h
    → no_brackets h ≡ true
    → contains_byte b':' h ≡ true
    → (resolve_http_control_host_port urls http secure
        ≡ ok (b'[' ∷ b'[' ∷ (h ++ (codes "]]:" ++ (if secure then codes "443" else codes "80")))))
      × (resolve_grpc_target urls grpc secure
          ≡ ok (b'[' ∷ b'[' ∷ (h ++ (codes "]]:" ++ (if secure then codes "443" else codes "80")))))
      × (split_host_port
            (b'[' ∷ b'[' ∷ (h ++ (codes "]]:" ++ (if secure then codes "443" else codes "80"))))
          ≡ none)
unfolding resolve_http_control_host_port resolve_grpc_target
resolve_bracketed urls http grpc h secure u v p q e f x y b c = (
  rw p (host_port_bracketed urls h secure (urls.parse http) u e x b c),
  rw q (host_port_bracketed urls h secure (urls.parse grpc) v f y b c),
  split-twice_bracketed h (default_of secure) b,
)
