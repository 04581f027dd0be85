-- ===== src/Rage/WorldGrid/Claims.antt =====
-- What claiming sectors does to the owner of each sector, and to the slice of the client.
use baston.Prelude.{
  refl, ℕ, zero, suc, ◌+◌, ◌-◌, ◌≤◌, ◌<◌, ◌≡◌, ◌≢◌, arith, ◌&&◌, ◌||◌, not, List, [], ◌∷◌, ◌++◌,
  leb, ◌==◌, length, All, All-append, length-set, length-append, ◌∙◌, if-cases,
}
use baston.Rage.WorldGrid.{
  WorldGridEntry, Window, Claim, idx, cell_at, unowned, has_cell, claim_cell, claim_column,
  claim_window,
}
use baston.Rage.WorldGrid.Cells.{IsSector, InRange, IsAccel, cell_at-set}

-- A window of sectors that exist.
pub record IsWindow (w : Window) : Type 0 where
  pub left : w.min_x < 256
  pub right : w.max_x < 256
  pub bottom : w.min_y < 256
  pub top : w.max_y < 256

-- The table and the slice of client `m` agree on each sector, and the slice is within its budget.
pub record Holding (m : ℕ) (c : Claim) : Type 0 where
  pub table : IsAccel c.0
  pub cells : All InRange c.1
  pub few : length c.1 ≤ 32
  pub own : (x y : ℕ) → IsSector x y → (cell_at c.0 x y == m) ≡ has_cell x y c.1

-- No sector of client `n` is touched.
abbrev pub Spares : ℕ → Claim → Claim → Type 0
Spares n c c' = (x y : ℕ) → IsSector x y → (cell_at c'.0 x y == n) ≡ (cell_at c.0 x y == n)

has_cell-append :
    (x y : ℕ) (es fs : List WorldGridEntry)
    → has_cell x y (es ++ fs) ≡ (has_cell x y es || has_cell x y fs)
unfolding has_cell
has_cell-append x y [] fs = refl
has_cell-append x y (e ∷ es) fs = ground (arith, has_cell-append x y es fs)

has_cell-single :
    (x y : ℕ) (e : WorldGridEntry)
    → has_cell x y (e ∷ []) ≡ ((e.sector_x == x) && (e.sector_y == y))
unfolding has_cell
has_cell-single x y e = ground arith

module _ (m : ℕ) (client : m ≢ unowned) where
  claim_cell-Holding :
      (x y : ℕ) (c : Claim)
      → IsSector x y
      → Holding m c
      → length c.1 < 32
      → Holding m (claim_cell m x y c)
  unfolding claim_cell
  claim_cell-Holding x y (a, kept) here h room =
      let e : WorldGridEntry = record { sector_x = x; sector_y = y; net_id = m } in
      let more = All-append InRange kept (e ∷ []) h.cells (here, tt) in
      let counted : length (kept ++ (e ∷ [])) ≤ 32 = omega (arith, length-append kept (e ∷ [])) in
      if-cases (Holding m) (cell_at a x y == unowned) _ _
        (λ free. record {
          table = length-set a (idx x y) m ∙ h.table;
          cells = more;
          few = counted;
          own = λ x' y' h'. ground (
            arith,
            cell_at-set a x y m x' y' h.table here h',
            has_cell-append x' y' kept (e ∷ []),
            has_cell-single x' y' e,
            h.own x' y' h',
          );
        })
        λ taken.
          if-cases (Holding m) ((cell_at a x y == m) && not (has_cell x y kept)) _ _
            (λ lost. absurd (ground (arith, h.own x y here))) λ same. h

  claim_cell-Spares :
      (n x y : ℕ) (c : Claim)
      → n ≢ m
      → n ≢ unowned
      → IsSector x y
      → IsAccel c.0
      → Spares n c (claim_cell m x y c)
  unfolding claim_cell
  claim_cell-Spares n x y (a, kept) ne some_owner here table x' y' h' =
      ground (arith, cell_at-set a x y m x' y' table here h')

  claim_column-Holding :
      (x y n : ℕ) (c : Claim)
      → x < 256
      → y + n ≤ 256
      → Holding m c
      → Holding m (claim_column m x y n c)
  unfolding claim_column
  claim_column-Holding x y zero c hx hy h = h
  claim_column-Holding x y (suc n) c hx hy h =
      if-cases (Holding m) (leb 32 (length c.1)) c _ (λ full. h)
        λ room.
          claim_column-Holding x (y + 1) n (claim_cell m x y c) hx (omega arith)
            (claim_cell-Holding x y c (hx, omega arith) h (ground arith))

  claim_column-Spares :
      (k x y n : ℕ) (c : Claim)
      → k ≢ m
      → k ≢ unowned
      → x < 256
      → y + n ≤ 256
      → Holding m c
      → Spares k c (claim_column m x y n c)
  unfolding claim_column
  claim_column-Spares k x y zero c ne some_owner hx hy h = λ x' y' h'. refl
  claim_column-Spares k x y (suc n) c ne some_owner hx hy h =
      if-cases (Spares k c) (leb 32 (length c.1)) c _ (λ full. λ x' y' h'. refl)
        λ room.
          let here : IsSector x y = (hx, omega arith) in
          λ x' y' h'.
            claim_column-Spares k x (y + 1) n (claim_cell m x y c) ne some_owner hx (omega arith)
              (claim_cell-Holding x y c here h (ground arith)) x' y' h'
            ∙ claim_cell-Spares k x y c ne some_owner here h.table x' y' h'

  pub claim_window-Holding :
      (w : Window) (x n : ℕ) (c : Claim)
      → x + n ≤ 256
      → IsWindow w
      → Holding m c
      → Holding m (claim_window m w x n c)
  unfolding claim_window
  claim_window-Holding w x zero c hx hy h = h
  claim_window-Holding w x (suc n) c hx hy h =
      claim_window-Holding w (x + 1) n _ (omega arith) hy (
        claim_column-Holding x w.min_y (w.max_y + 1 - w.min_y) c (omega arith) (omega (arith, hy))
          h)

  pub claim_window-Spares :
      (k : ℕ) (w : Window) (x n : ℕ) (c : Claim)
      → k ≢ m
      → k ≢ unowned
      → x + n ≤ 256
      → IsWindow w
      → Holding m c
      → Spares k c (claim_window m w x n c)
  unfolding claim_window
  claim_window-Spares k w x zero c ne some_owner hx hy h = λ x' y' h'. refl
  claim_window-Spares k w x (suc n) c ne some_owner hx hy h = λ x' y' h'.
      claim_window-Spares k w (x + 1) n _ ne some_owner (omega arith) hy
        (claim_column-Holding x w.min_y (w.max_y + 1 - w.min_y) c (omega arith) (omega (arith, hy))
          h)
        x' y' h'
      ∙ claim_column-Spares k x w.min_y (w.max_y + 1 - w.min_y) c ne some_owner (omega arith)
          (omega (arith, hy)) h x' y' h'
