-- ===== src/Rage/WorldGrid/Cells.antt =====
-- What giving sectors up does to the owner of each sector.
use baston.Prelude.{
  Bool-cases, inl, inr, refl, ℕ, ◌+◌, ◌*◌, ◌<◌, ◌≡◌, ◌≢◌, arith, ◌&&◌, not, List, [], ◌∷◌, ◌==◌,
  if◌then◌else◌, length, set, All, length-set, get_or-set_self, get_or-set_ne,
}
use baston.Rage.WorldGrid.{
  WorldGridEntry, Window, idx, cell_at, unowned, inside, disown, release, keep, has_cell,
  disown_all,
}

abbrev pub IsSector : ℕ → ℕ → Type 0
IsSector x y = (x < 256) × (y < 256)

abbrev pub InRange : WorldGridEntry → Type 0
InRange e = IsSector e.sector_x e.sector_y

abbrev pub IsAccel : List ℕ → Type 0
IsAccel accel = length accel ≡ 65536

-- A write to one sector.
pub cell_at-set :
    (a : List ℕ) (x y v x' y' : ℕ)
    → IsAccel a
    → IsSector x y
    → IsSector x' y'
    → cell_at (set a (idx x y) v) x' y' ≡ (if (x == x') && (y == y') then v else cell_at a x' y')
unfolding idx
cell_at-set a x y v x' y' ha h h' = ground (
  arith,
  get_or-set_self a (x * 256 + y) v 65535,
  get_or-set_ne a (x * 256 + y) (x' * 256 + y') v 65535,
)

pub disown-IsAccel : (m x y : ℕ) (a : List ℕ) → IsAccel a → IsAccel (disown m x y a)
unfolding disown
disown-IsAccel m x y a h = ground (arith, length-set a (idx x y) unowned)

pub release-IsAccel :
    (m : ℕ) (w : Window) (es : List WorldGridEntry) (a : List ℕ)
    → IsAccel a
    → IsAccel (release m w es a)
unfolding release
release-IsAccel m w [] a h = h
release-IsAccel m w (e ∷ es) a h =
    release-IsAccel m w es _ (ground (arith, disown-IsAccel m e.sector_x e.sector_y a h))

pub disown_all-IsAccel :
    (m : ℕ) (es : List WorldGridEntry) (a : List ℕ) → IsAccel a → IsAccel (disown_all m es a)
unfolding disown_all
disown_all-IsAccel m [] a h = h
disown_all-IsAccel m (e ∷ es) a h =
    disown_all-IsAccel m es _ (disown-IsAccel m e.sector_x e.sector_y a h)

inside_congr : (w : Window) (x y x' y' : ℕ) → x ≡ x' → y ≡ y' → inside w x y ≡ inside w x' y'
inside_congr w x y x' y' p q = λ i. inside w (p i) (q i)

module _ (m n : ℕ) (some_owner : n ≢ unowned) (x y : ℕ) (here : IsSector x y) where
  disown-owner :
      (ex ey : ℕ) (a : List ℕ)
      → IsAccel a
      → IsSector ex ey
      → (cell_at (disown m ex ey a) x y == n)
        ≡ ((cell_at a x y == n) && not ((n == m) && ((ex == x) && (ey == y))))
  unfolding disown
  disown-owner ex ey a ha h = ground (arith, cell_at-set a ex ey unowned x y ha h here)

  pub release-owner :
      (w : Window) (es : List WorldGridEntry) (a : List ℕ)
      → IsAccel a
      → All InRange es
      → (cell_at (release m w es a) x y == n)
        ≡ ((cell_at a x y == n) && not ((n == m) && (has_cell x y es && not (inside w x y))))
  unfolding release has_cell
  release-owner w [] a ha h = ground arith
  release-owner w (e ∷ es) a ha h = elim (Bool-cases (inside w e.sector_x e.sector_y)) [
    | inl i ↦
        rw i (ground (arith, release-owner w es a ha h.1, inside_congr w e.sector_x e.sector_y x y))
    | inr i ↦ rw i (
        ground (
          arith,
          release-owner w es (disown m e.sector_x e.sector_y a)
              (disown-IsAccel m e.sector_x e.sector_y a ha) h.1,
          disown-owner e.sector_x e.sector_y a ha h.0,
          inside_congr w e.sector_x e.sector_y x y,
        ))
  ]

  pub disown_all-owner :
      (es : List WorldGridEntry) (a : List ℕ)
      → IsAccel a
      → All InRange es
      → (cell_at (disown_all m es a) x y == n)
        ≡ ((cell_at a x y == n) && not ((n == m) && has_cell x y es))
  unfolding disown_all has_cell
  disown_all-owner [] a ha h = ground arith
  disown_all-owner (e ∷ es) a ha h = ground (
    arith,
    disown_all-owner es (disown m e.sector_x e.sector_y a)
        (disown-IsAccel m e.sector_x e.sector_y a ha) h.1,
    disown-owner e.sector_x e.sector_y a ha h.0,
  )

pub has_cell-keep :
    (w : Window) (x y : ℕ) (es : List WorldGridEntry)
    → has_cell x y (keep w es) ≡ (has_cell x y es && inside w x y)
unfolding has_cell keep
has_cell-keep w x y [] = refl
has_cell-keep w x y (e ∷ es) = elim (Bool-cases (inside w e.sector_x e.sector_y)) [
  | inl i ↦ rw i (ground (arith, has_cell-keep w x y es, inside_congr w e.sector_x e.sector_y x y))
  | inr i ↦ rw i (ground (arith, has_cell-keep w x y es, inside_congr w e.sector_x e.sector_y x y))
]
