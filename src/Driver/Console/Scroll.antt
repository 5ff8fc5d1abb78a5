-- ===== src/Driver/Console/Scroll.antt =====
-- The loops over the cells of kernel/driver/console/console.c, and the place where text goes on.
use fruity_orange.Base.{
  ℕ, zero, suc, ◌+◌, ◌-◌, ◌*◌, ◌^◌, ◌<◌, ◌≤◌, ◌≡◌, ◌⊎◌, inl, inr, refl, ◌∙◌, ◌&&◌, ◌==◌, leb, ltb,
  if◌then◌else◌, arith, Bool-cases,
}
use fruity_orange.Driver.Console.{
  Screen, write_cell, copy_rows, fill_cells, scroll, increment, decrement, at_least, newline, wrap,
  end_of_screen, keep_height, videotext_control,
}

copy_rows_lem :
    (n i j : ℕ) (m : ℕ → ℕ)
    → copy_rows n i m j ≡ (if leb i j && ltb j (i + n) then m (j + 80) else m j)
unfolding copy_rows
copy_rows_lem zero i j m = ground arith
copy_rows_lem (suc n) i j m = copy_rows_lem n (i + 1) j (write_cell i (m (i + 80)) m) ∙ ground arith

fill_cells_lem :
    (n i j v : ℕ) (m : ℕ → ℕ) → fill_cells n i v m j ≡ (if leb i j && ltb j (i + n) then v else m j)
unfolding fill_cells
fill_cells_lem zero i j v m = ground arith
fill_cells_lem (suc n) i j v m = fill_cells_lem n (i + 1) j v (write_cell i v m) ∙ ground arith

-- `scroll` moves the rows of the screen up by one and clears 24 rows from the last one on, of which 23 lie
-- behind the screen.
pub scroll_lem :
    (s : Screen) (j : ℕ)
    → (scroll s).video_mem j ≡ (
        if ltb j 1920
        then s.video_mem (j + 80)
        else if ltb j 3840
        then s.color * 256
        else s.video_mem j)
unfolding scroll
scroll_lem s j =
    fill_cells_lem 1920 1920 j (s.color * 256) (copy_rows 1920 0 s.video_mem)
    ∙ ground (arith, copy_rows_lem 1920 0 j s.video_mem)

-- The place where the next character goes lies on the screen.
pub record IsOnScreen (s : Screen) : Type 0 where
  pub column : s.x ≤ 80
  pub row : s.y < 25
  pub not_last : (s.y ≡ 24) → s.x < 80

scroll_place : (s : Screen) → ((scroll s).x ≡ s.x) × ((scroll s).y ≡ decrement s.y)
unfolding scroll
scroll_place s = (refl, refl)

-- The same, with the start of a row below the screen.
record IsWrapped (s : Screen) : Type 0 where
  column : s.x ≤ 80
  row : s.y < 26
  below : s.y ≡ 25 → s.x ≡ 0

-- What the characters can make of a place on the screen: at most a tabulator to the right, the start
-- of the next row, or one to the left, but not off the first row.
pub record IsMoved (s : Screen) : Type 0 where
  pub column : (s.x ≤ 88) ⊎ (s.x ≡ 2 ^ 32 - 1)
  pub row : s.y < 26
  pub right : 80 < s.x → s.y < 25
  pub below : s.y ≡ 25 → s.x ≡ 0
  pub left : s.x ≡ 2 ^ 32 - 1 → 0 < s.y

wrap-IsWrapped : (s : Screen) → IsMoved s → IsWrapped (wrap s)
unfolding wrap newline
wrap-IsWrapped s v = elim v.column [
  | inl h ↦ record { column = ground arith; row = ground arith; below = ground (arith, v.below) }
  | inr h ↦ record {
    column = ground arith;
    row = ground (arith, v.left);
    below = ground (arith, v.left);
  }
]

record IsEnded (s : Screen) : Type 0 where
  wrapped : IsWrapped s
  not_last : s.y ≡ 24 → s.x < 80

end-IsEnded : (s : Screen) → IsWrapped s → IsEnded (end_of_screen s)
unfolding end_of_screen newline
end-IsEnded s v = elim (Bool-cases ((s.y == 24) && (s.x == 80))) [
  | inl e ↦
      let p = scroll_place s in
      let y' : increment (scroll s).y ≡ 24 = ground arith in
      rw e (record {
        wrapped = record { column = omega arith; row = omega arith; below = λ _. refl };
        not_last = λ _. omega arith;
      })
  | inr e ↦ rw e (record { wrapped = v; not_last = λ h. ground (arith, v.column) })
]

keep_height-IsOnScreen : (s : Screen) → IsEnded s → IsOnScreen (keep_height s)
unfolding keep_height
keep_height-IsOnScreen s v = elim (Bool-cases (at_least s.y 25)) [
  | inl e ↦
      let p = scroll_place s in
      let w = v.wrapped in
      let y' : (scroll s).y ≡ 24 = ground arith in
      let x' : (scroll s).x ≡ 0 = ground (arith, w.below) in
      rw e (record { column = omega arith; row = omega arith; not_last = λ _. omega arith })
  | inr e ↦
      let w = v.wrapped in
      rw e (record { column = w.column; row = ground arith; not_last = v.not_last })
]

-- `videotext_control` brings such a place back to the screen.
pub control-IsOnScreen : (s : Screen) → IsMoved s → IsOnScreen (videotext_control s)
unfolding videotext_control
control-IsOnScreen s v =
    keep_height-IsOnScreen (end_of_screen (wrap s)) (end-IsEnded (wrap s) (wrap-IsWrapped s v))
