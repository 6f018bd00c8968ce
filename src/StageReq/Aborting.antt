-- ===== src/StageReq/Aborting.antt =====
-- stage_req.py, process_no_res where the given resource is needed: the processing aborts.
use mathlib.Core.List.{append_assoc}
use tam_simulation.Prelude.{
  ℕ, zero, suc, ◌+◌, ◌<◌, ◌⊎◌, true, ◌≡◌, refl, sym, inl, inr, Bool, false, Bool-cases, Option,
  none, some, List, [], ◌∷◌, ◌++◌, ◌==◌, arith,
}
use tam_simulation.Result.{ok, ok-injective}
use tam_simulation.Dict.{Dict}
use tam_simulation.StageReq.{
  StageReq, stage_req, blk_stage_req, update_mem_store_req, Reqs, no_reqs, req, Profiles,
  no_profiles, profile,
}
use tam_simulation.StageReq.Process.{
  Effect, request, submit, start_blocking, finish_blocking, wait, succeed, raised, wait_all, exit,
  abort, submit_all, finish, use_other_resources, block_if_any, use_until, use_list_until,
  process_profiles_no_res, process_no_res,
}
use tam_simulation.StageReq.Totals.{
  used, used-append, used-submit_all, used-block_if_any, sum_costs, sum_cost_list, sum_profiles,
  sum_costs-lookup_or, get_res_consumption, HasOnce,
}

-- How often a list of effects ends the processing: by success, an exit, an abort or an exception.
abbrev pub ends : List Effect → ℕ
ends [] = 0
ends (request res client_id amt stage priority ∷ es) = ends es
ends (submit r ∷ es) = ends es
ends (start_blocking w_id ∷ es) = ends es
ends (finish_blocking w_id ∷ es) = ends es
ends (wait evt ∷ es) = ends es
ends (succeed evt ∷ es) = suc (ends es)
ends (exit ∷ es) = suc (ends es)
ends (abort ∷ es) = suc (ends es)
ends (raised error ∷ es) = suc (ends es)

ends-append : (xs ys : List Effect) → ends (xs ++ ys) ≡ ends xs + ends ys
ends-append [] ys = omega arith
ends-append (request res client_id amt stage priority ∷ xs) ys = ends-append xs ys
ends-append (submit r ∷ xs) ys = ends-append xs ys
ends-append (start_blocking w_id ∷ xs) ys = ends-append xs ys
ends-append (finish_blocking w_id ∷ xs) ys = ends-append xs ys
ends-append (wait evt ∷ xs) ys = ends-append xs ys
ends-append (succeed evt ∷ xs) ys = ground (arith, ends-append xs ys)
ends-append (exit ∷ xs) ys = ground (arith, ends-append xs ys)
ends-append (abort ∷ xs) ys = ground (arith, ends-append xs ys)
ends-append (raised error ∷ xs) ys = ground (arith, ends-append xs ys)

ends-submit_all : (rs : Reqs) → ends (submit_all rs) ≡ 0
ends-submit_all no_reqs = refl
ends-submit_all (req r rs) = ends-submit_all rs

ends-wait_all : (evts : List ℕ) (es : List Effect) → ends (wait_all evts ++ es) ≡ ends es
ends-wait_all [] es = refl
ends-wait_all (evt ∷ evts) es = ends-wait_all evts es

ends-block_if_any : (w_id : Option ℕ) (evts : List ℕ) → ends (block_if_any w_id evts) ≡ 0
ends-block_if_any w_id [] = refl
ends-block_if_any none (evt ∷ evts) = ends-wait_all evts []
ends-block_if_any (some w) (evt ∷ evts) = ends-wait_all evts (finish_blocking w ∷ [])

-- The last effect is an abort; before it nothing is taken of the resource `e`, and nothing ends the
-- processing.
abbrev pub Aborts : ℕ → List Effect → Type 0
Aborts e es =
    (before : List Effect) × (es ≡ before ++ abort ∷ [])
    × (used (λ s. s == e) before ≡ 0)
    × (ends before ≡ 0)

Aborts-prefix :
    (e : ℕ) (xs ys : List Effect)
    → used (λ s. s == e) xs ≡ 0
    → ends xs ≡ 0
    → Aborts e ys
    → Aborts e (xs ++ ys)
Aborts-prefix e xs ys unused unended (before, split, takes, stops) = (
  xs ++ before,
  rw split (sym (append_assoc xs before (abort ∷ []))),
  omega (arith, used-append (λ s. s == e) xs before, unused, takes),
  omega (arith, ends-append xs before, unended, stops),
)

zero_or_positive : (n : ℕ) → (n ≡ 0) ⊎ (0 < n)
zero_or_positive zero = inl refl
zero_or_positive (suc n) = inr (omega arith)

module _ (e stage client_id priority : ℕ) where
  used-use_other_resources :
      (resources : Dict ℕ)
      → used (λ s. s == e) (use_other_resources (some e) stage client_id priority resources).0 ≡ 0
  unfolding use_other_resources
  used-use_other_resources [] = refl
  used-use_other_resources ((res, amt) ∷ resources) =
      ground (arith, used-use_other_resources resources)

  ends-use_other_resources :
      (resources : Dict ℕ)
      → ends (use_other_resources (some e) stage client_id priority resources).0 ≡ 0
  unfolding use_other_resources
  ends-use_other_resources [] = refl
  ends-use_other_resources ((res, amt) ∷ resources) =
      ground (arith, ends-use_other_resources resources)

  other_resources_noticed :
      (resources : Dict ℕ)
      → 0 < sum_costs (λ s. s == e) resources
      → (use_other_resources (some e) stage client_id priority resources).1 ≡ true
  unfolding use_other_resources
  other_resources_noticed [] needed = absurd (omega (arith, needed))
  other_resources_noticed ((res, amt) ∷ resources) needed =
      ground (arith, needed, other_resources_noticed resources)

  used-use_until :
      (costs : Dict ℕ)
      → used (λ s. s == e) (use_until (some e) stage client_id priority costs).0 ≡ 0
  used-use_until [] = refl
  used-use_until ((res, amt) ∷ costs) = ground (arith, used-use_until costs)

  ends-use_until : (costs : Dict ℕ) → ends (use_until (some e) stage client_id priority costs).0 ≡ 0
  ends-use_until [] = refl
  ends-use_until ((res, amt) ∷ costs) = ground (arith, ends-use_until costs)

  use_until_noticed :
      (costs : Dict ℕ)
      → (use_until (some e) stage client_id priority costs).1 ≡ false
      → sum_costs (λ s. s == e) costs ≡ 0
  use_until_noticed [] free = refl
  use_until_noticed ((res, amt) ∷ costs) free = ground (arith, free, use_until_noticed costs)

  needed_later :
      (costs : Dict ℕ) (cs : List (Dict ℕ)) (rest : List Effect)
      → sum_costs (λ s. s == e) costs ≡ 0
      → (0 < sum_cost_list (λ s. s == e) (costs ∷ cs)) ⊎ Aborts e rest
      → (0 < sum_cost_list (λ s. s == e) cs) ⊎ Aborts e rest
  needed_later costs cs rest unneeded (inl needed) = inl (omega (arith, unneeded, needed))
  needed_later costs cs rest unneeded (inr aborts) = inr aborts

  use_list_until-Aborts :
      (cs : List (Dict ℕ)) (rest : List Effect)
      → (0 < sum_cost_list (λ s. s == e) cs) ⊎ Aborts e rest
      → Aborts e (use_list_until (some e) stage client_id priority cs rest)
  use_list_until-Aborts [] rest (inl needed) = absurd (omega (arith, needed))
  use_list_until-Aborts [] rest (inr aborts) = aborts
  use_list_until-Aborts (costs ∷ cs) rest why =
      let uses = (use_until (some e) stage client_id priority costs).0 in
      elim (Bool-cases (use_until (some e) stage client_id priority costs).1) [
        | inl stopped ↦ rw stopped (uses, refl, used-use_until costs, ends-use_until costs)
        | inr free ↦ rw free (
            Aborts-prefix e uses (use_list_until (some e) stage client_id priority cs rest)
              (used-use_until costs) (ends-use_until costs)
              (use_list_until-Aborts cs rest
                (needed_later costs cs rest (use_until_noticed costs free) why)))
      ]

  process_profiles-Aborts :
      (w_id : Option ℕ) (ps : Profiles) (rest : List Effect)
      → 0 < sum_profiles (λ s. s == e) ps
      → Aborts e (process_profiles_no_res stage client_id priority w_id (some e) ps rest)
  process_profiles-Aborts w_id no_profiles rest needed = absurd (omega (arith, needed))
  process_profiles-Aborts w_id (profile costs reqs evts ps) rest needed =
      let test : ℕ → Bool = λ s. s == e in
      let after = process_profiles_no_res stage client_id priority w_id (some e) ps rest in
      let between = submit_all reqs ++ block_if_any w_id evts in
      use_list_until-Aborts costs (between ++ after)
        (elim (zero_or_positive (sum_cost_list test costs)) [
          | inr now ↦ inl now
          | inl not_yet ↦ inr (
              Aborts-prefix e between after
                (omega (
                  arith,
                  used-append test (submit_all reqs) (block_if_any w_id evts),
                  used-submit_all test reqs,
                  used-block_if_any test w_id evts,
                ))
                (omega (
                  arith,
                  ends-append (submit_all reqs) (block_if_any w_id evts),
                  ends-submit_all reqs,
                  ends-block_if_any w_id evts,
                ))
                (process_profiles-Aborts w_id ps rest (omega (arith, needed, not_yet))))
        ])

-- Where a request needs some of the resource, process_no_res takes none of it and aborts: the abort is
-- its last effect, and before it the request neither succeeds nor exits nor raises an exception.
pub process_no_res-Aborts :
    (e : ℕ) (w_id : Option ℕ) (r : StageReq) (n : ℕ)
    → HasOnce e r
    → get_res_consumption e r ≡ ok n
    → 0 < n
    → Aborts e (process_no_res w_id (some e) r)
unfolding process_no_res get_res_consumption
process_no_res-Aborts e w_id
      (stage_req ident stage client_id priority resources evts reqs callbacks) n once same
      some_of_it =
    let needed : 0 < sum_costs (λ s. s == e) resources =
      omega (arith, sum_costs-lookup_or e resources once, ok-injective same, some_of_it) in
    rw (other_resources_noticed e stage client_id priority resources needed) (
      (use_other_resources (some e) stage client_id priority resources).0,
      refl,
      used-use_other_resources e stage client_id priority resources,
      ends-use_other_resources e stage client_id priority resources,
    )
process_no_res-Aborts e w_id (blk_stage_req ident stage client_id priority ps callbacks) n once same
      some_of_it =
    process_profiles-Aborts e stage client_id priority w_id ps (finish ident callbacks ++ exit ∷ [])
      (omega (arith, ok-injective same, some_of_it))
process_no_res-Aborts e w_id (update_mem_store_req ident stage client_id change_size) n once same
      some_of_it =
    absurd (cc)
