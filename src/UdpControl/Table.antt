-- ===== src/UdpControl/Table.antt =====
-- The table of a udpControlListener, `map[string]*udpControlConn`.
use backhaul_recovered.Prelude.{
  ℕ, true, false, Bool-cases, Option, none, some, List, [], ◌∷◌, if◌then◌else◌, ◌≡◌, ◌≢◌, inl, inr,
  sym, ap, ◌∙◌, arith,
}
use backhaul_recovered.Prelude.Text.{Str, str_eq, str_eq_refl, str_eq→eq}

unfoldable pub lookup : Str → List (Str × ℕ) → Option ℕ
lookup key [] = none
lookup key ((other, handle) ∷ table) = if str_eq other key then some handle else lookup key table

unfoldable pub delete : Str → List (Str × ℕ) → List (Str × ℕ)
delete key [] = []
delete key ((other, handle) ∷ table) =
    let rest = delete key table in if str_eq other key then rest else (other, handle) ∷ rest

unfoldable pub insert : Str → ℕ → List (Str × ℕ) → List (Str × ℕ)
unfolding delete
insert key handle table = (key, handle) ∷ delete key table

pub lookup-nil : (key : Str) (handle : ℕ) → lookup key [] ≢ some handle
unfolding lookup
lookup-nil key handle e = cc

pub lookup-delete :
    (key asked : Str) (table : List (Str × ℕ))
    → lookup asked (delete key table) ≡ (if str_eq key asked then none else lookup asked table)
unfolding lookup delete
lookup-delete key asked [] = ground arith
lookup-delete key asked ((other, handle) ∷ table) = elim (Bool-cases (str_eq other key)) [
  | inl e ↦
      let same : other ≡ key = str_eq→eq other key e in
      ground (arith, lookup-delete key asked table, ap (λ z. str_eq z asked) same)
  | inr n ↦ elim (Bool-cases (str_eq other asked)) [
    | inl e ↦
        let same : other ≡ asked = str_eq→eq other asked e in
        let apart : str_eq key asked ≡ false = differ same n in
        ground (arith, lookup-delete key asked table)
    | inr m ↦ ground (arith, lookup-delete key asked table)
  ]
]
  where
    flip : (a b : Str) → str_eq a b ≡ false → (str_eq b a) ≡ false
    flip a b f = elim (Bool-cases (str_eq b a)) [
      | inl e ↦
          let bad : true ≡ false =
            sym (str_eq_refl b) ∙ ap (λ z. str_eq z b) (str_eq→eq b a e) ∙ f in
          cc bad
      | inr e ↦ e
    ]

    differ : other ≡ asked → str_eq other key ≡ false → str_eq key asked ≡ false
    differ same f = flip asked key (sym (ap (λ z. str_eq z key) same) ∙ f)

pub lookup-insert :
    (key asked : Str) (handle : ℕ) (table : List (Str × ℕ))
    → lookup asked (insert key handle table)
      ≡ (if str_eq key asked then some handle else lookup asked table)
unfolding lookup insert
lookup-insert key asked handle table = ground (arith, lookup-delete key asked table)
