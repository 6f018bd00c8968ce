-- ===== src/StageReq/Speculative.antt =====
-- stage_req.py, process_no_res where none of the given resource is needed.
use mathlib.Core.List.{append_assoc}
use tam_simulation.Prelude.{
  ℕ, ◌≡◌, refl, sym, ◌∙◌, ap, inl, inr, false, Bool-cases, Option, none, some, List, [], ◌∷◌, ◌++◌,
  ◌==◌, arith,
}
use tam_simulation.Result.{ok, ok-injective}
use tam_simulation.Dict.{Dict}
use tam_simulation.StageReq.{
  StageReq, stage_req, blk_stage_req, update_mem_store_req, Profiles, no_profiles, profile,
}
use tam_simulation.StageReq.Process.{
  Effect, exit, submit_all, blocking, finish, use_other_resources, use_costs, use_cost_list,
  block_if_any, process_profiles, process, use_until, use_list_until, process_profiles_no_res,
  process_no_res,
}
use tam_simulation.StageReq.Totals.{
  sum_costs, sum_cost_list, sum_profiles, sum_costs-lookup_or, get_res_consumption, HasOnce,
}
use tam_simulation.StageReq.Timing.Requests.{use_resources-parts}

module _ (e stage client_id priority : ℕ) where
  use_other_resources-use_costs :
      (resources : Dict ℕ)
      → sum_costs (λ s. s == e) resources ≡ 0
      → use_other_resources (some e) stage client_id priority resources
        ≡ (use_costs stage client_id priority resources, false)
  unfolding use_other_resources
  use_other_resources-use_costs [] zero = refl
  use_other_resources-use_costs ((res, amt) ∷ resources) zero =
      let rest = use_other_resources-use_costs resources (ground (arith, zero)) in
      elim (Bool-cases (amt == 0)) [
        | inl none_of_it ↦ rw none_of_it rest
        | inr some_of_it ↦
            let other : (res == e) ≡ false = ground (arith, zero, some_of_it) in
            rw (some_of_it, other, rest) refl
      ]

  use_until-use_costs :
      (costs : Dict ℕ)
      → sum_costs (λ s. s == e) costs ≡ 0
      → use_until (some e) stage client_id priority costs
        ≡ (use_costs stage client_id priority costs, false)
  use_until-use_costs [] zero = refl
  use_until-use_costs ((res, amt) ∷ costs) zero =
      let rest = use_until-use_costs costs (ground (arith, zero)) in
      elim (Bool-cases (amt == 0)) [
        | inl none_of_it ↦ rw none_of_it rest
        | inr some_of_it ↦
            let other : (res == e) ≡ false = ground (arith, zero, some_of_it) in
            rw (some_of_it, other, rest) refl
      ]

  use_list_until-use_cost_list :
      (cs : List (Dict ℕ)) (rest : List Effect)
      → sum_cost_list (λ s. s == e) cs ≡ 0
      → use_list_until (some e) stage client_id priority cs rest
        ≡ use_cost_list stage client_id priority cs ++ rest
  use_list_until-use_cost_list [] rest zero = refl
  use_list_until-use_cost_list (costs ∷ cs) rest zero =
      let head = use_until-use_costs costs (omega (arith, zero)) in
      let tail = use_list_until-use_cost_list cs rest (omega (arith, zero)) in
      let uses = use_costs stage client_id priority costs in
      rw (head, tail) (sym (append_assoc uses (use_cost_list stage client_id priority cs) rest))

  process_profiles-agrees :
      (w_id : Option ℕ) (ps : Profiles) (rest last : List Effect)
      → sum_profiles (λ s. s == e) ps ≡ 0
      → process_profiles_no_res stage client_id priority w_id (some e) ps (rest ++ last)
        ≡ process_profiles stage client_id priority w_id ps rest ++ last
  process_profiles-agrees w_id no_profiles rest last zero = refl
  process_profiles-agrees w_id (profile costs reqs evts ps) rest last zero =
      let after = process_profiles stage client_id priority w_id ps rest in
      let tail = process_profiles-agrees w_id ps rest last (omega (arith, zero)) in
      let uses = use_cost_list stage client_id priority costs in
      let subs = submit_all reqs in
      let blocks = block_if_any w_id evts in
      use_list_until-use_cost_list costs _ (omega (arith, zero))
      ∙ ap (λ es. uses ++ (subs ++ blocks ++ es)) tail
      ∙ simp append_assoc refl

-- Where a request needs none of the resource, the speculative processing is the usual one, and then
-- exits: nothing is left out.
pub process_no_res-agrees :
    (e : ℕ) (w_id : Option ℕ) (r : StageReq)
    → HasOnce e r
    → get_res_consumption e r ≡ ok 0
    → process_no_res w_id (some e) r ≡ process w_id none none r ++ exit ∷ []
unfolding process_no_res process get_res_consumption
process_no_res-agrees e w_id
      (stage_req ident stage client_id priority resources evts reqs callbacks) once zero =
    let self = stage_req ident stage client_id priority resources evts reqs callbacks in
    let rest = submit_all reqs ++ blocking w_id evts ++ finish ident callbacks in
    let none_needed : sum_costs (λ s. s == e) resources ≡ 0 =
      sum_costs-lookup_or e resources once ∙ ok-injective zero in
    rw
      (
        use_other_resources-use_costs e stage client_id priority resources none_needed,
        use_resources-parts self stage client_id priority resources rest,
      )
      (simp append_assoc refl)
process_no_res-agrees e w_id (blk_stage_req ident stage client_id priority ps callbacks) once zero =
    process_profiles-agrees e stage client_id priority w_id ps (finish ident callbacks) (exit ∷ [])
      (ok-injective zero)
process_no_res-agrees e w_id (update_mem_store_req ident stage client_id change_size) once zero =
    absurd (cc)
