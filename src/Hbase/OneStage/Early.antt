-- ===== src/Hbase/OneStage/Early.antt =====
-- hbase/hbase.py, OneStagePerResRegionServer.submit_req: the reply does not wait for the log.
use mathlib.Core.Path.{subst}
use mathlib.Core.Option.{some-injective}
use tam_simulation.Prelude.{
  ℕ, suc, ◌+◌, ◌≤◌, ◌<◌, ◌≡◌, refl, inl, inr, ◌⊎◌, true, false, Bool-cases, Option, none, some,
  List, [], ◌∷◌, ◌++◌, ◌==◌, arith, ltb, leb, length, contains, if◌then◌else◌,
}
use tam_simulation.Result.{Result, ok, err, ok-injective, ◌>>=◌, ◌>>◌, assert, bind-eq-ok}
use tam_simulation.StageReq.{StageReq, stage_req, no_reqs, req}
use tam_simulation.StageReq.Process.{Effect, process, use_resources}
use tam_simulation.StageReq.Timing.{
  Times, Use, Never, Run, stop, over, run_request, run_submit, run_succeed,
}
use tam_simulation.Hdfs.{Made}
use tam_simulation.Hbase.{HbaseReq, absent, with_made}
use tam_simulation.Hbase.OneStage.{
  ResServer, get_write_req, choose, idents, pipeline, get_hbase_write_req, log_append, read_part,
  synced, append_req, handle_req, submit_req,
}

-- No event before `bound` succeeds.
abbrev NoneBelow : Times → ℕ → Type 0
NoneBelow at bound = (i : ℕ) → i < bound → at i ≡ none

fresh-get_write_req :
    (rs : ResServer) (client_id write_size fresh : ℕ) (nodes : List ResServer)
    → fresh + 2 ≤ (get_write_req rs client_id write_size fresh nodes).fresh
unfolding get_write_req
fresh-get_write_req rs client_id write_size fresh [] = omega arith
fresh-get_write_req rs client_id write_size fresh (node ∷ nodes) =
    omega (arith, fresh-get_write_req node client_id write_size (fresh + 2) nodes)

Never-get_write_req :
    (at : Times) (bound : ℕ) (rs : ResServer) (client_id write_size fresh : ℕ)
    (nodes : List ResServer)
    → NoneBelow at bound
    → (get_write_req rs client_id write_size fresh nodes).fresh ≤ bound
    → Never at (get_write_req rs client_id write_size fresh nodes).made
unfolding get_write_req Never
Never-get_write_req at bound rs client_id write_size fresh [] early le =
    (early fresh (omega (arith, le)), ((early (suc fresh) (omega (arith, le)), tt, tt), tt), tt)
Never-get_write_req at bound rs client_id write_size fresh (node ∷ nodes) early le =
    let more = fresh-get_write_req node client_id write_size (fresh + 2) nodes in
    (
      early fresh (omega (arith, le, more)),
      (
        (early (suc fresh) (omega (arith, le, more)), tt, tt),
        (Never-get_write_req at bound node client_id write_size (fresh + 2) nodes early le, tt),
      ),
      tt,
    )

-- Uses of two resources only.
abbrev pub UsesOnly : (a b : ℕ) → List Use → Type 0
UsesOnly a b [] = Unit
UsesOnly a b (u ∷ log) = ((u.res ≡ a) ⊎ (u.res ≡ b)) × UsesOnly a b log

UsesOnly-append :
    (a b : ℕ) (xs ys : List Use) → UsesOnly a b xs → UsesOnly a b ys → UsesOnly a b (xs ++ ys)
UsesOnly-append a b [] ys h h' = h'
UsesOnly-append a b (u ∷ xs) ys (own, h) h' = (own, UsesOnly-append a b xs ys h h')

-- A run at time 0 in which those resources are used.
record Early (at : Times) (a b : ℕ) (es : List Effect) : Type 0 where
  end : Option ℕ
  log : List Use
  run : Run at 0 es end log
  own : UsesOnly a b log

Early-use :
    (at : Times) (a b : ℕ) (self : StageReq) (stage client_id res amt : ℕ) (rest : List Effect)
    → (res ≡ a) ⊎ (res ≡ b)
    → Early at a b rest
    → Early at a b (use_resources self none none stage client_id 0 ((res, amt) ∷ []) rest)
unfolding use_resources
Early-use at a b self stage client_id res amt rest own i = elim (Bool-cases (amt == 0)) [
  | inl zero ↦ rw zero i
  | inr some_use ↦ rw some_use (record {
    end = i.end;
    log = record { res = res; amt = amt; time = 0 } ∷ i.log;
    run = run_request 0 (omega arith) i.run;
    own = (own, i.own);
  })
]

abbrev only : ℕ → Times
only evt i = if i == evt then some 0 else none

NoneBelow-only : (evt : ℕ) → NoneBelow (only evt) evt
NoneBelow-only evt i low = ground (arith, low)

module _ (rs : ResServer) (r : HbaseReq) (fresh : ℕ) (w : Made) where
  abbrev handling : StageReq
  handling = handle_req rs r (absent fresh) (synced rs r fresh w) ([] ++ fresh ∷ []) w.fresh

  abbrev reading : StageReq
  reading =
      stage_req (w.fresh + 2) rs.net_stage r.client_id 0 ((rs.phy_node.net_res, r.rpc_size) ∷ []) []
        (req handling no_reqs) no_reqs

  abbrev at : Times
  at = only w.fresh

  Early-append :
      Never at w.made
      → fresh + 2 ≤ w.fresh
      → Early at rs.phy_node.net_res rs.phy_node.cpu_res (
          process none none none (
            append_req rs r (suc fresh) (
              req w.made (
                req
                  (stage_req fresh rs.log_sync_stage rs.wal_id 0 []
                    (w.done_evt ∷ [])
                    no_reqs
                    no_reqs)
                  no_reqs))))
  unfolding process Never
  Early-append never low =
      Early-use at rs.phy_node.net_res rs.phy_node.cpu_res _ rs.log_append_stage r.client_id
        rs.phy_node.cpu_res _ _ (inr refl)
        (record {
          end = none;
          log = [];
          run = stop (
            never,
            (
              (NoneBelow-only w.fresh fresh (omega (arith, low)), tt, tt),
              (NoneBelow-only w.fresh (suc fresh) (omega (arith, low)), tt),
            ),
          );
          own = tt;
        })

  Early-respond : Early at rs.phy_node.net_res rs.phy_node.cpu_res (
      process none none none (
        stage_req w.fresh rs.net_stage r.client_id 0
          ((rs.phy_node.net_res, r.reply_size) ∷ [])
          []
          no_reqs
          no_reqs))
  unfolding process
  Early-respond =
      Early-use at rs.phy_node.net_res rs.phy_node.cpu_res _ rs.net_stage r.client_id
        rs.phy_node.net_res _ _ (inl refl)
        (record { end = some 0; log = []; run = run_succeed (ground arith) over; own = tt })

  Early-handle :
      Never at w.made
      → fresh + 2 ≤ w.fresh
      → Early at rs.phy_node.net_res rs.phy_node.cpu_res (process none none none handling)
  unfolding process
  Early-handle never low =
      let append = Early-append never low in
      Early-use at rs.phy_node.net_res rs.phy_node.cpu_res _ rs.cpu_stage r.client_id
        rs.phy_node.cpu_res _ _ (inr refl)
        (record {
          end = none;
          log = append.log ++ (Early-respond.log ++ []);
          run = run_submit none 0 0 (omega arith) (omega arith) append.run (
              run_submit none 0 0 (omega arith) (omega arith) Early-respond.run
                (stop (ground arith, tt)));
          own =
              UsesOnly-append _ _ append.log _ append.own
                (UsesOnly-append _ _ Early-respond.log [] Early-respond.own tt);
        })

  Early-read :
      Never at w.made
      → fresh + 2 ≤ w.fresh
      → Early at rs.phy_node.net_res rs.phy_node.cpu_res (process none none none reading)
  unfolding process
  Early-read never low =
      let handle = Early-handle never low in
      Early-use at rs.phy_node.net_res rs.phy_node.cpu_res _ rs.net_stage r.client_id
        rs.phy_node.net_res _ _ (inl refl)
        (record {
          end = none;
          log = handle.log ++ [];
          run =
              run_submit none 0 0 (omega arith) (omega arith) handle.run (stop (ground arith, tt));
          own = UsesOnly-append _ _ handle.log [] handle.own tt;
        })

-- What a write is made of, whatever was drawn.
made-pipeline :
    (client_id write_size fresh : ℕ) (o : Option (List ResServer)) (w : Made)
    → (elim o [
      | none ↦ ok none
      | some nodes ↦ pipeline client_id write_size fresh nodes >>= λ w. ok (some w)
    ])
      ≡ ok (some w)
    → (node : ResServer) × (nodes : List ResServer) × (get_write_req node client_id write_size fresh
          nodes
        ≡ w)
made-pipeline client_id write_size fresh none w e = absurd (cc)
made-pipeline client_id write_size fresh (some []) w e = absurd (cc)
made-pipeline client_id write_size fresh (some (node ∷ nodes)) w e =
    (node, nodes, some-injective _ w (ok-injective e))

get_hbase_write_req-pipeline :
    (rs_list : List ResServer) (replica : ℕ) (rs : ResServer) (client_id write_size fresh : ℕ)
    (draws : List ℕ) (w : Made)
    → get_hbase_write_req rs_list replica rs client_id write_size fresh draws ≡ ok (some w)
    → (node : ResServer) × (nodes : List ResServer) × (get_write_req node client_id write_size fresh
          nodes
        ≡ w)
unfolding get_hbase_write_req
get_hbase_write_req-pipeline rs_list replica rs client_id write_size fresh draws w e =
    let (_, _, e1) = bind-eq-ok (assert (leb replica (length rs_list))) _ e in
    let (_, _, e2) = bind-eq-ok (assert (contains rs.ident (idents rs_list))) _ e1 in
    made-pipeline client_id write_size fresh (choose rs_list replica draws (rs ∷ [])) w e2

-- OneStagePerResRegionServer: whatever was drawn, a request without a read that asks for its log to
-- be synchronized may be answered, in some run, when nothing but the network and the CPU of this
-- server has been used, so before any byte of the log is on a disk.
pub submit_req-early :
    (rs_list : List ResServer) (replica : ℕ) (rs : ResServer) (r : HbaseReq) (fresh : ℕ)
    (draws : List ℕ) (m : Made)
    → r.datanode_read_size ≡ 0
    → r.log_sync ≡ true
    → 0 < r.log_append_size
    → submit_req rs_list replica rs r fresh draws ≡ ok (some m)
    → (times : Times) × (end : Option ℕ) × (log : List Use) × Run times 0
        (process none none none m.made)
        end
        log
      × (times m.done_evt ≡ some 0)
      × UsesOnly rs.phy_node.net_res rs.phy_node.cpu_res log
unfolding submit_req read_part log_append
submit_req-early rs_list replica rs r fresh draws m no_read sync some_data e =
    let unread : ltb 0 r.datanode_read_size ≡ false = ground (arith, no_read) in
    let needed : ltb 0 r.log_append_size ≡ true = ground (arith, some_data) in
    replied (get_hbase_write_req rs_list replica rs rs.wal_id r.log_append_size (fresh + 2) draws)
      refl (rw (unread, needed, sync) at e)
  where
    replied :
        (o : Result (Option Made))
        → get_hbase_write_req rs_list replica rs rs.wal_id r.log_append_size (fresh + 2) draws ≡ o
        → with_made (with_made o (λ w. ok (some (synced rs r fresh w)))) (λ log. do
          let handle = handle_req rs r (absent fresh) log ([] ++ log.evts) log.next
          assert (ltb 0 r.rpc_size)
          ok (
              some (record {
                made =
                    stage_req
                      (log.next + 2)
                      rs.net_stage
                      r.client_id
                      0
                      ((rs.phy_node.net_res, r.rpc_size) ∷ [])
                      []
                      (req handle no_reqs)
                      no_reqs;
                done_evt = log.next;
                fresh = log.next + 3;
              })))
          ≡ ok (some m)
        → (times : Times) × (end : Option ℕ) × (log : List Use) × Run times 0
            (process none none none m.made)
            end
            log
          × (times m.done_evt ≡ some 0)
          × UsesOnly rs.phy_node.net_res rs.phy_node.cpu_res log
    replied (err x) made e' = absurd (cc)
    replied (ok none) made e' = absurd (cc)
    replied (ok (some w)) made e' =
        let (_, _, e'') = bind-eq-ok (assert (ltb 0 r.rpc_size)) _ e' in
        let same = some-injective _ m (ok-injective e'') in
        let (node, nodes, is_w) =
          get_hbase_write_req-pipeline rs_list replica rs rs.wal_id r.log_append_size (fresh + 2)
            draws w made in
        let low : fresh + 2 ≤ w.fresh =
          subst (λ x. fresh + 2 ≤ x.fresh) is_w
            (omega
              (arith, fresh-get_write_req node rs.wal_id r.log_append_size (fresh + 2) nodes)) in
        let never : Never (only w.fresh) w.made =
          subst (λ x. Never (only x.fresh) x.made) is_w
            (Never-get_write_req _ _ node rs.wal_id r.log_append_size (fresh + 2) nodes
              (NoneBelow-only _) (omega arith)) in
        let early = Early-read rs r fresh w never low in
        (
          only w.fresh,
          early.end,
          early.log,
          subst (λ x. Run (only w.fresh) 0 (process none none none x.made) early.end early.log) same
              early.run,
          subst (λ x. only w.fresh x.done_evt ≡ some 0) same (ground arith),
          early.own,
        )
