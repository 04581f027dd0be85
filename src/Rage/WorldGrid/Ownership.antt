-- ===== src/Rage/WorldGrid/Ownership.antt =====
-- The grid's table and its slices agree in every state that the calls reach.
use baston.Prelude.Map.{lookup, insert, remove, lookup-insert, lookup-remove}
use baston.Prelude.{
  refl, ℕ, zero, suc, ◌+◌, ◌-◌, ◌≤◌, ◌≡◌, ◌≢◌, arith, List, [], ◌∷◌, ◌==◌, if◌then◌else◌, length,
  All, ◌∙◌, if-cases, length-replicate, replicate, get_or,
}
use baston.Rage.WorldGrid.{
  WorldGridEntry, WorldGrid, Window, new, idx, cell_at, unowned, or_empty, owned_cells, keep,
  release, has_cell, Claim, claim_window, update_window, disown_all, remove_client,
}
use baston.Rage.WorldGrid.Cells.{
  IsSector, InRange, IsAccel, release-IsAccel, release-owner, disown_all-IsAccel, disown_all-owner,
  has_cell-keep,
}
use baston.Rage.WorldGrid.Claims.{IsWindow, Holding, claim_window-Holding, claim_window-Spares}

-- Every client's slice lists the sectors that the table gives it, and at most 32 of them.
pub record IsGrid (g : WorldGrid) : Type 0 where
  pub table : IsAccel g.accel
  pub cells : (n : ℕ) → n ≢ unowned → All InRange (owned_cells g n)
  pub few : (n : ℕ) → n ≢ unowned → length (owned_cells g n) ≤ 32
  pub own :
      (n x y : ℕ)
      → n ≢ unowned
      → IsSector x y
      → (cell_at g.accel x y == n) ≡ has_cell x y (owned_cells g n)

get_or-replicate : (k : ℕ) (i v : ℕ) → get_or (replicate k v) i v ≡ v
get_or-replicate zero i v = refl
get_or-replicate (suc k) zero v = refl
get_or-replicate (suc k) (suc i) v = get_or-replicate k i v

pub new-IsGrid : IsGrid new
unfolding new owned_cells or_empty lookup has_cell
new-IsGrid = record {
  table = length-replicate {A = ℕ} 65536 65535;
  cells = λ n h. tt;
  few = λ n h. omega arith;
  own = λ n x y h s. rw (get_or-replicate 65536 (idx x y) 65535) (ground arith);
}

keep-InRange : (w : Window) (es : List WorldGridEntry) → All InRange es → All InRange (keep w es)
unfolding keep
keep-InRange w [] h = h
keep-InRange w (e ∷ es) h = ground (arith, keep-InRange w es h.1)

length-keep : (w : Window) (es : List WorldGridEntry) → length (keep w es) ≤ length es
unfolding keep
length-keep w [] = omega arith
length-keep w (e ∷ es) = ground (arith, length-keep w es)

owned_cells-insert :
    (m n : ℕ) (kept : List WorldGridEntry) (a : List ℕ) (g : WorldGrid)
    → owned_cells (record { accel = a; slices = insert m kept g.slices }) n
      ≡ (if m == n then kept else owned_cells g n)
unfolding owned_cells or_empty
owned_cells-insert m n kept a g = ground (arith, lookup-insert m n kept g.slices)

owned_cells-remove :
    (m n : ℕ) (a : List ℕ) (g : WorldGrid)
    → owned_cells (record { accel = a; slices = remove m g.slices }) n
      ≡ (if m == n then [] else owned_cells g n)
unfolding owned_cells or_empty
owned_cells-remove m n a g = ground (arith, lookup-remove m n g.slices)

module _ (m : ℕ) (client : m ≢ unowned) (g : WorldGrid) (v : IsGrid g) where
  -- Before the claims, the client holds what it keeps.
  kept-Holding :
      (w : Window) → Holding m (release m w (owned_cells g m) g.accel, keep w (owned_cells g m))
  kept-Holding w =
      let es = owned_cells g m in
      record {
        table = release-IsAccel m w es g.accel v.table;
        cells = keep-InRange w es (v.cells m client);
        few = omega (arith, length-keep w es, v.few m client);
        own = λ x y h. ground (
          arith,
          release-owner m m client x y h w es g.accel v.table (v.cells m client),
          has_cell-keep w x y es,
          v.own m x y client h,
        );
      }

  pub update_window-IsGrid : (w : Window) → IsWindow w → IsGrid (update_window m w g).0
  unfolding update_window
  update_window-IsGrid w h =
      let es = owned_cells g m in
      let before : Claim = (release m w es g.accel, keep w es) in
      let n = w.max_x + 1 - w.min_x in
      let c = claim_window m w w.min_x n before in
      let held =
        claim_window-Holding m client w w.min_x n before (omega (arith, h)) h (kept-Holding w) in
      record {
        table = held.table;
        cells = λ k ne. rw (owned_cells-insert m k c.1 c.0 g) (
            if-cases (All InRange) (m == k) c.1 (owned_cells g k) (λ e. held.cells)
              (λ e. v.cells k ne));
        few = λ k ne. rw (owned_cells-insert m k c.1 c.0 g) (
            if-cases (λ cells. length cells ≤ 32) (m == k) c.1 (owned_cells g k) (λ e. held.few)
              (λ e. v.few k ne));
        own = λ k x y ne s. rw (owned_cells-insert m k c.1 c.0 g) (
            if-cases (λ cells. (cell_at c.0 x y == k) ≡ has_cell x y cells) (m == k) c.1
              (owned_cells g k) (λ e. ground (arith, held.own x y s))
              λ e.
                let other : k ≢ m = ground arith in
                claim_window-Spares m client k w w.min_x n before other ne (omega (arith, h)) h
                  (kept-Holding w) x y s
                ∙ ground (
                  arith,
                  release-owner m k ne x y s w es g.accel v.table (v.cells m client),
                  v.own k x y ne s,
                ));
      }

  pub remove_client-IsGrid : IsGrid (remove_client m g)
  unfolding remove_client
  remove_client-IsGrid =
      let es = owned_cells g m in
      let a = disown_all m es g.accel in
      record {
        table = disown_all-IsAccel m es g.accel v.table;
        cells = λ k ne.
            rw (owned_cells-remove m k a g)
              (if-cases (All InRange) (m == k) [] (owned_cells g k) (λ e. tt) (λ e. v.cells k ne));
        few = λ k ne. rw (owned_cells-remove m k a g) (
            if-cases (λ cells. length cells ≤ 32) (m == k) [] (owned_cells g k) (λ e. omega arith)
              (λ e. v.few k ne));
        own = λ k x y ne s.
            let owner = disown_all-owner m k ne x y s es g.accel v.table (v.cells m client) in
            rw (owned_cells-remove m k a g) (
              if-cases (λ cells. (cell_at a x y == k) ≡ has_cell x y cells) (m == k) []
                (owned_cells g k)
                (λ e. unfold has_cell in ground (arith, owner, v.own m x y client s))
                λ e. ground (arith, owner, v.own k x y ne s));
      }
