-- ===== src/App/Runtime.antt =====
-- normalizeTransportForRuntime (internal/app/app.go) against the names of Transport.
use backhaul_recovered.Prelude.{
  ◌≡◌, refl, Bool, true, false, ◌||◌, ◌&&◌, not, some, [], if◌then◌else◌,
}
use backhaul_recovered.Prelude.Text.{Str, codes, str_eq}
use backhaul_recovered.Config.{Config}
use backhaul_recovered.Strings.{trim_space, to_lower, trim, trim_left, trim_right, is_space, lower}
use backhaul_recovered.Transport.{parse_transport, plain}
use backhaul_recovered.App.{tun_transport, normalize_transport_for_runtime, is_slip}
use backhaul_recovered.Config.Set.{is}

-- The three ways to carry a TUN device, by whether it goes in slipstream and whether in IPX.
abbrev pub Carries : Bool → Bool → Str → Type 0
Carries slip ipx t =
    (parse_transport t ≡ some (record plain { mux = true; slip = slip }))
    × (str_eq t (codes "xtcpmux") ≡ (not slip && ipx))
    × (str_eq t (codes "tcpmux") ≡ (not slip && not ipx))

pick-Carries :
    (slip ipx : Bool)
    → Carries slip ipx
        (if slip then codes "slipstreammux" else if ipx then codes "xtcpmux" else codes "tcpmux")
unfolding parse_transport trim_space trim trim_left trim_right is_space to_lower lower
pick-Carries true ipx = (refl, refl, refl)
pick-Carries false true = (refl, refl, refl)
pick-Carries false false = (refl, refl, refl)

-- Where the transport of the configuration is `tun`, up to case and blanks, and `enc` is the
-- encapsulation in small letters and without blanks around it: parseTransport reads what Run hands
-- on as a multiplexed transport without TLS and with no carrier other than slipstream, with
-- slipstream if and only if `enc` is `slipstream`, `slip` or `sstream`. In the other cases it
-- is `xtcpmux` where `enc` is `ipx` or an IPX mode is set, and `tcpmux` where neither holds.
pub normalize_transport-Carries :
    (c : Config) (enc : Str)
    → to_lower (trim_space c.transport.type_name) ≡ codes "tun"
    → to_lower (trim_space c.tun.encapsulation) ≡ enc
    → Carries
        (str_eq enc (codes "slipstream")
          || (str_eq enc (codes "slip") || str_eq enc (codes "sstream")))
        (str_eq enc (codes "ipx") || not (str_eq c.ipx.mode []))
        (normalize_transport_for_runtime c)
unfolding normalize_transport_for_runtime tun_transport
normalize_transport-Carries c enc e f =
    rw e (rw f (pick-Carries (is_slip enc) (is enc (codes "ipx") || not (is c.ipx.mode []))))
