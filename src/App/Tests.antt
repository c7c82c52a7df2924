-- ===== src/App/Tests.antt =====
-- A TUN configuration.
use backhaul_recovered.Prelude.{refl}
use backhaul_recovered.Prelude.Text.{codes}
use backhaul_recovered.Strings.{trim_left, trim_right, trim, trim_space, is_space, to_lower, lower}
use backhaul_recovered.Config.{Config, defaults}
use backhaul_recovered.App.{normalize_transport_for_runtime, false, true}
use backhaul_recovered.App.Runtime.{Carries, normalize_transport-Carries}

abbrev tunnel : Config
tunnel = record defaults {
  transport = record defaults.transport { type_name = codes "TUN" };
  tun = record defaults.tun { encapsulation = codes " IPX" };
}

normalize_transport-Carries_example : Carries false true (normalize_transport_for_runtime tunnel)
unfolding trim_left trim_right trim trim_space is_space to_lower lower
normalize_transport-Carries_example = normalize_transport-Carries tunnel (codes "ipx") refl refl
