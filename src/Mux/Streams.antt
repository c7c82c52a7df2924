-- ===== src/Mux/Streams.antt =====
-- The session's table of streams, `map[uint32]*simpleMuxStream`, and a store of values by handle.
use backhaul_recovered.Prelude.{
  ℕ, Option, none, some, List, [], ◌∷◌, ◌==◌, if◌then◌else◌, ◌≡◌, ◌≢◌, arith,
}

unfoldable pub lookup : ℕ → List (ℕ × ℕ) → Option ℕ
lookup id [] = none
lookup id ((other, handle) ∷ table) = if other == id then some handle else lookup id table

-- Go's `delete`: no entry of the key is left.
unfoldable pub delete : ℕ → List (ℕ × ℕ) → List (ℕ × ℕ)
delete id [] = []
delete id ((other, handle) ∷ table) =
    let rest = delete id table in if other == id then rest else (other, handle) ∷ rest

-- `streams[id] = st` puts the stream in the place of one that had the number.
unfoldable pub insert : ℕ → ℕ → List (ℕ × ℕ) → List (ℕ × ℕ)
insert id handle table = (id, handle) ∷ delete id table

pub lookup-nil : (id handle : ℕ) → lookup id [] ≢ some handle
unfolding lookup
lookup-nil id handle e = cc

pub lookup-delete :
    (id asked : ℕ) (table : List (ℕ × ℕ))
    → lookup asked (delete id table) ≡ (if id == asked then none else lookup asked table)
unfolding lookup delete
lookup-delete id asked [] = ground arith
lookup-delete id asked ((other, handle) ∷ table) = ground (arith, lookup-delete id asked table)

pub lookup-insert :
    (id asked handle : ℕ) (table : List (ℕ × ℕ))
    → lookup asked (insert id handle table)
      ≡ (if id == asked then some handle else lookup asked table)
unfolding lookup insert
lookup-insert id asked handle table = ground (arith, lookup-delete id asked table)

abbrev pub update : {V : Type 0} → (ℕ → V) → ℕ → V → ℕ → V
update f h v g = if h == g then v else f g
