-- ===== src/Tests/Tokens.antt =====
-- The allocation of tokens on small rings.
use tam_simulation.Prelude.{ℕ, ◌<◌, ◌≡◌, refl, [], ◌∷◌, arith}
use tam_simulation.Result.{ok}
use tam_simulation.Dict.{insert}
use tam_simulation.Tokens.{
  Assigned, nothing_assigned, random_ft, random_tokens, update_assign_map, random, assign_vn_to_pn,
  compute_vn_id_list,
}
use tam_simulation.Tokens.Neighbours.{AreApart, random_ft-AreApart}
use tam_simulation.Tokens.Inverse.{IsInverse, assign_vn_to_pn-IsInverse}

random_ft-AreApart_example :
    (t : Assigned) × (random_ft 4 3 0 (5 ∷ 0 ∷ 1 ∷ 7 ∷ []) nothing_assigned ≡ ok t)
    × ((i : ℕ) → i < 4 → AreApart 4 3 t i)
random_ft-AreApart_example =
    random_ft-AreApart 4 3 (5 ∷ 0 ∷ 1 ∷ 7 ∷ []) (omega arith) (omega arith) refl

abbrev three_tokens : Assigned
three_tokens = record {
  vn_pn_idx_map = (2, 0) ∷ (0, 1) ∷ (1, 0) ∷ [];
  pn_vn_idx_map = (0, 2 ∷ 1 ∷ []) ∷ (1, 0 ∷ []) ∷ [];
}

assign_vn_to_pn-IsInverse_example : IsInverse three_tokens
unfolding assign_vn_to_pn random_tokens update_assign_map insert
assign_vn_to_pn-IsInverse_example =
    assign_vn_to_pn-IsInverse (random (2 ∷ 0 ∷ 1 ∷ [])) 3 2 three_tokens refl

ids_test : compute_vn_id_list 4 3 0 2 ≡ 3 ∷ 0 ∷ []
unfolding compute_vn_id_list
ids_test = refl
