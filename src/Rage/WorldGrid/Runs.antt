-- ===== src/Rage/WorldGrid/Runs.antt =====
-- Who owns a sector after any calls.
use baston.Prelude.{
  ℕ, ◌≤◌, ◌<◌, ◌≡◌, ◌≢◌, arith, true, some, List, [], ◌∷◌, ◌==◌, Bool-cases, inl, inr, length, All,
  sym, ◌∙◌, ap, ◌↔◌,
}
use baston.Rage.WorldGrid.{
  WorldGrid, Plane, new, cell_at, unowned, owner_of, owned_cells, has_cell, sector_index,
  claim_range, focus_window, update_focus, remove_client,
}
use baston.Rage.WorldGrid.Claims.{IsWindow}
use baston.Rage.WorldGrid.Ownership.{IsGrid, new-IsGrid, update_window-IsGrid, remove_client-IsGrid}

owner_of-cell_at :
    (g : WorldGrid) (n x y : ℕ)
    → n ≢ unowned
    → (owner_of g x y ≡ some n) ↔ ((cell_at g.accel x y == n) ≡ true)
unfolding owner_of
owner_of-cell_at g n x y ne = elim (Bool-cases (cell_at g.accel x y == unowned)) [
  | inl e ↦ rw e (λ h. absurd (ground arith), λ h. absurd (ground arith))
  | inr e ↦ rw e (λ h. ground arith, λ h. ap some (ground arith))
]

-- The calls on a bucket's grid, with the coordinates of the plane.
pub data Call (Coord : Type 0) : Type 0 where
  focus : (net_id : ℕ) → (x y : Coord) → Call Coord
  leave : (net_id : ℕ) → Call Coord

module _ {Coord : Type 0} (plane : Plane Coord) where
  unfoldable pub run : List (Call Coord) → WorldGrid → WorldGrid
  run [] g = g
  run (focus net_id x y ∷ calls) g = run calls (update_focus plane net_id x y g).0
  run (leave net_id ∷ calls) g = run calls (remove_client net_id g)

  -- No client has the id that marks a free sector.
  abbrev pub IsCall : Call Coord → Type 0
  IsCall (focus net_id x y) = net_id ≢ unowned
  IsCall (leave net_id) = net_id ≢ unowned

  focus_window-IsWindow : (x y : Coord) → IsWindow (focus_window plane x y)
  unfolding focus_window claim_range sector_index
  focus_window-IsWindow x y = record {
    left = omega arith;
    right = omega arith;
    bottom = omega arith;
    top = omega arith;
  }

  pub run-IsGrid :
      (calls : List (Call Coord)) (g : WorldGrid)
      → All IsCall calls
      → IsGrid g
      → IsGrid (run calls g)
  unfolding run
  run-IsGrid [] g h v = v
  run-IsGrid (focus net_id x y ∷ calls) g h v = run-IsGrid calls _ h.1 (
      unfold update_focus in
      update_window-IsGrid net_id h.0 g v (focus_window plane x y) (focus_window-IsWindow x y))
  run-IsGrid (leave net_id ∷ calls) g h v =
      run-IsGrid calls _ h.1 (remove_client-IsGrid net_id h.0 g v)

  -- After any calls on a fresh grid, wherever the clients look, a client owns a sector of the 256 by
  -- 256 in the table exactly if its slice has that sector, so that no two clients' slices share one,
  -- and no slice has more than 32 sectors, if no client has the id 65535 that marks a free sector.
  pub run-owner_of :
      (calls : List (Call Coord)) (n x y : ℕ)
      → All IsCall calls
      → n ≢ unowned
      → x < 256
      → y < 256
      → let g = run calls new in
        ((owner_of g x y ≡ some n) ↔ (has_cell x y (owned_cells g n) ≡ true))
        × (length (owned_cells g n) ≤ 32)
  run-owner_of calls n x y h ne hx hy =
      let g = run calls new in
      let v = run-IsGrid calls new h new-IsGrid in
      let table = owner_of-cell_at g n x y ne in
      let same = v.own n x y ne (hx, hy) in
      ((λ e. sym same ∙ table.0 e, λ e. table.1 (same ∙ e)), v.few n ne)
