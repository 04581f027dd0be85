-- ===== src/Rage/WorldGrid.antt =====
-- The world grid of a routing bucket, crates/baston-protocol/src/rage/session.rs: which client owns
-- each sector. Coordinates are floats, so that what the code computes with them is an argument.
pub mod Cells
pub mod Claims
pub mod Ownership
pub mod Runs
use baston.Prelude.Map.{lookup, insert, remove}
use baston.Prelude.{
  ℕ, zero, suc, ◌+◌, ◌-◌, ◌*◌, min, Bool, true, false, ◌&&◌, ◌||◌, not, Option, none, some, List,
  [], ◌∷◌, ◌++◌, ltb, leb, ◌==◌, if◌then◌else◌, length, get_or, set, replicate,
}

abbrev pub world_grid_dim : ℕ
world_grid_dim = 256

abbrev pub world_grid_entries : ℕ
world_grid_entries = 32

-- `u16::MAX`
abbrev pub unowned : ℕ
unowned = 65535

-- The float arithmetic: `((coord + WORLD_OFFSET).max(0.0) / WORLD_GRID_CELL) as usize`, and a
-- coordinate moved by the claim radius.
pub record Plane (Coord : Type 0) : Type 0 where
  pub cell : Coord → ℕ
  pub minus_radius : Coord → Coord
  pub plus_radius : Coord → Coord

pub record WorldGridEntry : Type 0 where
  pub sector_x : ℕ
  pub sector_y : ℕ
  pub net_id : ℕ

pub record WorldGrid : Type 0 where
  pub accel : List ℕ
  pub slices : List (ℕ × List WorldGridEntry)

unfoldable pub new : WorldGrid
new = record { accel = replicate (world_grid_dim * world_grid_dim) unowned; slices = [] }

unfoldable pub idx : ℕ → ℕ → ℕ
idx x y = x * world_grid_dim + y

-- `self.accel[i]`
abbrev pub cell_at : List ℕ → ℕ → ℕ → ℕ
cell_at accel x y = get_or accel (idx x y) unowned

unfoldable pub owner_of : WorldGrid → ℕ → ℕ → Option ℕ
owner_of g x y = let n = cell_at g.accel x y in if n == unowned then none else some n

unfoldable pub or_empty : Option (List WorldGridEntry) → List WorldGridEntry
or_empty none = []
or_empty (some cells) = cells

unfoldable pub owned_cells : WorldGrid → ℕ → List WorldGridEntry
owned_cells g net_id = or_empty (lookup net_id g.slices)

-- The window of sectors around a focus, ends included.
pub record Window : Type 0 where
  pub min_x : ℕ
  pub max_x : ℕ
  pub min_y : ℕ
  pub max_y : ℕ

unfoldable pub inside : Window → ℕ → ℕ → Bool
inside w x y = leb w.min_x x && (leb x w.max_x && (leb w.min_y y && leb y w.max_y))

-- A sector that the client owns is given up.
unfoldable pub disown : ℕ → ℕ → ℕ → List ℕ → List ℕ
disown net_id x y accel = if cell_at accel x y == net_id then set accel (idx x y) unowned else accel

-- The loop over the sectors that the client used to own.
unfoldable pub release : ℕ → Window → List WorldGridEntry → List ℕ → List ℕ
release net_id w [] accel = accel
release net_id w (e ∷ es) accel =
    release net_id w es
      (if inside w e.sector_x e.sector_y then accel else disown net_id e.sector_x e.sector_y accel)

unfoldable pub keep : Window → List WorldGridEntry → List WorldGridEntry
keep w [] = []
keep w (e ∷ es) = let rest = keep w es in if inside w e.sector_x e.sector_y then e ∷ rest else rest

-- `kept.iter().any(…)`
unfoldable pub has_cell : ℕ → ℕ → List WorldGridEntry → Bool
has_cell x y [] = false
has_cell x y (e ∷ es) = ((e.sector_x == x) && (e.sector_y == y)) || has_cell x y es

abbrev pub Claim : Type 0
Claim = List ℕ × List WorldGridEntry

unfoldable pub claim_cell : ℕ → ℕ → ℕ → Claim → Claim
claim_cell net_id x y (accel, kept) =
    let owner = cell_at accel x y in
    let kept' = kept ++ (record { sector_x = x; sector_y = y; net_id = net_id } ∷ []) in
    if owner == unowned
    then (set accel (idx x y) net_id, kept')
    else if (owner == net_id) && not (has_cell x y kept)
    then (accel, kept')
    else (accel, kept)

-- The inner loop from `y` on, with `n` rounds left; a full slice breaks it off.
unfoldable pub claim_column : ℕ → ℕ → ℕ → ℕ → Claim → Claim
claim_column net_id x y zero c = c
claim_column net_id x y (suc n) c =
    if leb world_grid_entries (length c.1)
    then c
    else claim_column net_id x (y + 1) n (claim_cell net_id x y c)

unfoldable pub claim_window : ℕ → Window → ℕ → ℕ → Claim → Claim
claim_window net_id w x zero c = c
claim_window net_id w x (suc n) c =
    claim_window net_id w (x + 1) n (claim_column net_id x w.min_y (w.max_y + 1 - w.min_y) c)

unfoldable pub same_entry : WorldGridEntry → WorldGridEntry → Bool
same_entry a b =
    (a.sector_x == b.sector_x) && ((a.sector_y == b.sector_y) && (a.net_id == b.net_id))

unfoldable pub same_cells : List WorldGridEntry → List WorldGridEntry → Bool
same_cells [] [] = true
same_cells [] (b ∷ bs) = false
same_cells (a ∷ as') [] = false
same_cells (a ∷ as') (b ∷ bs) = same_entry a b && same_cells as' bs

unfoldable pub update_window : ℕ → Window → WorldGrid → WorldGrid × Bool
update_window net_id w g =
    let previous = owned_cells g net_id in
    let (accel, kept) =
      claim_window net_id w w.min_x (w.max_x + 1 - w.min_x)
        (release net_id w previous g.accel, keep w previous) in
    (record { accel = accel; slices = insert net_id kept g.slices }, not (same_cells kept previous))

module _ {Coord : Type 0} (plane : Plane Coord) where
  unfoldable pub sector_index : Coord → ℕ
  sector_index coord = min (plane.cell coord) (world_grid_dim - 1)

  unfoldable pub claim_range : Coord → ℕ × ℕ
  claim_range coord =
      (sector_index (plane.minus_radius coord), sector_index (plane.plus_radius coord))

  unfoldable pub focus_window : Coord → Coord → Window
  focus_window x y = record {
    min_x = (claim_range x).0;
    max_x = (claim_range x).1;
    min_y = (claim_range y).0;
    max_y = (claim_range y).1;
  }

  unfoldable pub update_focus : ℕ → Coord → Coord → WorldGrid → WorldGrid × Bool
  update_focus net_id x y g = update_window net_id (focus_window x y) g

unfoldable pub disown_all : ℕ → List WorldGridEntry → List ℕ → List ℕ
disown_all net_id [] accel = accel
disown_all net_id (e ∷ es) accel = disown_all net_id es (disown net_id e.sector_x e.sector_y accel)

unfoldable pub remove_client : ℕ → WorldGrid → WorldGrid
remove_client net_id g = record {
  accel = disown_all net_id (owned_cells g net_id) g.accel;
  slices = remove net_id g.slices;
}
