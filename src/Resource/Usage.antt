-- ===== src/Resource/Usage.antt =====
-- The usage of a resource and that of its clients.
use mathlib.Core.Path.{subst}
use tam_simulation.Prelude.{ℕ, ◌+◌, ◌≡◌, refl, List, [], ◌∷◌, arith}
use tam_simulation.Result.{Result, ok, ok-injective, bind-eq-ok, require, ◌>>=◌}
use tam_simulation.Dict.{lookup, lookup_or, total, total-insert}
use tam_simulation.Resource.{ResReq, Resource, request, start_use, finish_use, clear_stats}

-- What happens to a resource.
pub data Event : Type 0 where
  asked : ResReq → Event
  started : ℕ → ℕ → ResReq → Event
  finished : ℕ → ResReq → Event
  cleared : ℕ → Event

unfoldable pub act : Event → Resource → Result Resource
act (asked req) r = ok (request req r)
act (started now w_id req) r = ok (start_use now w_id req r)
act (finished w_id req) r = finish_use w_id req r
act (cleared now) r = ok (clear_stats now r)

unfoldable pub run : List Event → Resource → Result Resource
run [] r = ok r
run (e ∷ es) r = do r' ← act e r; run es r'

abbrev amount : ℕ → ℕ
amount n = n

-- The clients' usages add up to the usage.
pub record IsSum (r : Resource) : Type 0 where
  pub same : total amount r.per_client_usage ≡ r.usage

finish-IsSum :
    (w_id : ℕ) (req : ResReq) (r t : Resource) → IsSum r → finish_use w_id req r ≡ ok t → IsSum t
unfolding finish_use
finish-IsSum w_id req r t h e =
    let (service, _, rest) = bind-eq-ok (require (lookup req.client_id r.current_service)) _ e in
    let (waits, _, last) = bind-eq-ok (require (lookup req.client_id r.waiting)) _ rest in
    subst IsSum (ok-injective last) (record {
      same = ground (
        arith,
        h.same,
        total-insert amount req.client_id (lookup_or 0 req.client_id r.per_client_usage + req.amt)
            r.per_client_usage,
      );
    })

act-IsSum : (e : Event) (r t : Resource) → IsSum r → act e r ≡ ok t → IsSum t
unfolding act request start_use clear_stats
act-IsSum (asked req) r t h e = subst IsSum (ok-injective e) (record { same = h.same })
act-IsSum (started now w_id req) r t h e = subst IsSum (ok-injective e) (record { same = h.same })
act-IsSum (finished w_id req) r t h e = finish-IsSum w_id req r t h e
act-IsSum (cleared now) r t h e = subst IsSum (ok-injective e) (record { same = refl })

-- The amount that a client is charged for is the amount that was used: after any events that raise
-- nothing, the usages of the clients still add up to the usage of the resource.
pub run-IsSum : (es : List Event) (r t : Resource) → IsSum r → run es r ≡ ok t → IsSum t
unfolding run
run-IsSum [] r t h e = subst IsSum (ok-injective e) h
run-IsSum (x ∷ es) r t h e =
    let (r', done, rest) = bind-eq-ok (act x r) _ e in
    run-IsSum es r' t (act-IsSum x r r' h done) rest
