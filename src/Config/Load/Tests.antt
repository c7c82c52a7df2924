-- ===== src/Config/Load/Tests.antt =====
-- Configurations of concrete lines.
use backhaul_recovered.Prelude.{◌≡◌, refl, [], ◌∷◌, inr}
use backhaul_recovered.Prelude.Text.{codes}
use backhaul_recovered.Strings.{trim_left, trim_right, trim, trim_space, is_space}
use backhaul_recovered.Config.{defaults}
use backhaul_recovered.Config.Load.{load}
use backhaul_recovered.Config.Load.Rules.{load-silent, load-ports_section}

load-silent_example :
    load (codes "[ports]" ∷ codes "  # web" ∷ codes "mapping = [\"80\"]" ∷ [])
    ≡ load (codes "[ports]" ∷ codes "mapping = [\"80\"]" ∷ [])
unfolding trim_left trim_right trim trim_space is_space
load-silent_example =
    load-silent (codes "[ports]" ∷ []) (codes "mapping = [\"80\"]" ∷ []) (codes "  # web")
      (inr (codes " web", refl))

load-ports_section_example :
    load (codes "[ports]" ∷ codes "mapping = [" ∷ codes "80" ∷ codes "90=99" ∷ codes "]" ∷ [])
    ≡ record defaults {
      ports = record { forwarder = []; mapping = codes "80" ∷ codes "90=99" ∷ [] };
    }
unfolding is_space
load-ports_section_example = load-ports_section (codes "80" ∷ codes "90=99" ∷ []) (
  (((refl, refl, refl, refl, refl), ((refl, refl, refl, refl, refl), tt)), λ e. cc),
  (
    (
      (
        (refl, refl, refl, refl, refl),
        (
          (refl, refl, refl, refl, refl),
          (
            (refl, refl, refl, refl, refl),
            ((refl, refl, refl, refl, refl), ((refl, refl, refl, refl, refl), tt)),
          ),
        ),
      ),
      λ e. cc,
    ),
    tt,
  ),
)
