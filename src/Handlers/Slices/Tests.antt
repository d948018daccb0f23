-- ===== src/Handlers/Slices/Tests.antt =====
-- Runs of the removal.
use socket_io.Base.{◌≡◌, refl, ok, err, [], ◌∷◌}
use socket_io.Handlers.Slices.{off_slice, of_list, remove, slice_bounds}

one_of_three : off_slice (2 ∷ []) (1 ∷ 2 ∷ 3 ∷ []) ≡ ok (1 ∷ 3 ∷ [])
unfolding off_slice of_list remove
one_of_three = refl

-- The loop steps over the handler that moves into the place of a removed one.
second_is_skipped : off_slice (1 ∷ 2 ∷ []) (1 ∷ 2 ∷ 3 ∷ []) ≡ ok (2 ∷ 3 ∷ [])
unfolding off_slice of_list remove
second_is_skipped = refl

-- It meets what is left behind the end.
both_of_two : off_slice (1 ∷ 2 ∷ []) (1 ∷ 2 ∷ []) ≡ err slice_bounds
unfolding off_slice of_list remove
both_of_two = refl
