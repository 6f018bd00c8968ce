-- ===== src/Hbase/Durable.antt =====
-- hbase/hbase.py: what has happened where the event of a log's synchronization has succeeded.
use mathlib.Core.Path.{subst}
use mathlib.Core.Option.{some-injective}
use tam_simulation.Prelude.{
  ℕ, suc, ◌+◌, ◌*◌, ◌≤◌, ◌<◌, ◌≡◌, refl, sym, ◌∙◌, ap, inl, inr, Option, none, some, List, [], ◌∷◌,
  ◌++◌, length,
}
use tam_simulation.Result.{Result, ok, ok-injective, err}
use tam_simulation.StageReq.{StageReq, stage_req, no_reqs, req}
use tam_simulation.StageReq.Process.{process}
use tam_simulation.StageReq.Timing.{Times, Use, Never, Run}
use tam_simulation.StageReq.Timing.Parts.{AllBy}
use tam_simulation.StageReq.Timing.Requests.{run-done, run-Submitting, run-submit}
use tam_simulation.Hdfs.{DataNode, Made, get_hdfs_write_req, first_chosen, local_datanode}
use tam_simulation.Hdfs.Pipeline.{AllWritten, AllWritten-middle, AllWritten-later}
use tam_simulation.Hdfs.Placement.{IsPlaced, StartsWith}
use tam_simulation.Hdfs.Writes.{acked-replicated}
use tam_simulation.Hbase.{HbaseReq, RegionServer, with_made, write_req, stream_req, append_req}

-- The run of a request inside a longer one.
pub record Inside (at : Times) (r : StageReq) (log : List Use) : Type 0 where
  pub w_id : Option ℕ
  pub start : ℕ
  pub end : Option ℕ
  pub before : List Use
  pub own : List Use
  pub after : List Use
  pub run : Run at start (process w_id none none r) end own
  pub whole : log ≡ before ++ (own ++ after)

-- A request that submits two others, the second of which has succeeded: the first one is being
-- processed, and what the second one waits for has succeeded too.
pub pair-run :
    {at : Times} {now by : ℕ} {end : Option ℕ} {log : List Use} (w_id : Option ℕ)
    (ident stage client_id : ℕ) (resources : List (ℕ × ℕ)) (a : StageReq)
    (ident' stage' client_id' : ℕ) (resources' : List (ℕ × ℕ)) (evts : List ℕ)
    → Run at now
        (process w_id none none (
          stage_req ident stage client_id 0 resources []
            (req a
              (req (stage_req ident' stage' client_id' 0 resources' evts no_reqs no_reqs) no_reqs))
            no_reqs))
        end
        log
    → at ident' ≡ some by
    → AllBy at by evts × Inside at a log
unfolding Never
pair-run {at} w_id ident stage client_id resources a ident' stage' client_id' resources' evts r
      done =
    let b = stage_req ident' stage' client_id' 0 resources' evts no_reqs no_reqs in
    elim (run-Submitting w_id ident stage client_id 0 resources [] (req a (req b no_reqs)) no_reqs
      r) [
        | inl (_, ((never, _, _), _)) ↦ absurd (cc)
        | inr s ↦ elim (run-submit s.run) [
          | inl (_, _, ((never, _, _), _)) ↦ absurd (cc)
          | inr t ↦ elim (run-submit t.rest) [
            | inl (_, (never, _, _), _) ↦ absurd (cc)
            | inr u ↦
                let (_, waited) =
                  run-done u.w_id ident' stage' client_id' 0 resources' evts no_reqs no_reqs u.sub
                    done in
                (
                  waited,
                  record {
                    w_id = t.w_id;
                    start = t.start;
                    end = t.sub_end;
                    before = s.before;
                    own = t.sub_log;
                    after = t.rest_log;
                    run = t.sub;
                    whole = s.whole ∙ ap (λ l. s.before ++ l) t.whole;
                  },
                )
          ]
        ]
      ]

-- Different nodes of the cluster, as many as there are replicas, have written the data.
abbrev pub Replicated : RegionServer → (by size : ℕ) → List Use → Type 0
Replicated rs by size log =
    (dns : List DataNode) × IsPlaced rs.hdfs.datanode_list dns
    × (length dns ≡ rs.hdfs.replica)
    × StartsWith (first_chosen (local_datanode (some rs.phy_node.name) rs.hdfs.datanode_list)) dns
    × AllWritten by size dns log

pub Replicated-inside :
    (rs : RegionServer) (by later size : ℕ) (before own after log : List Use)
    → by ≤ later
    → log ≡ before ++ (own ++ after)
    → Replicated rs by size own
    → Replicated rs later size log
Replicated-inside rs by later size before own after log le whole
      (dns, placed, count, local, written) =
    (
      dns,
      placed,
      count,
      local,
      subst (AllWritten later size dns) (sym whole) (
          AllWritten-middle later size dns before own after
            (AllWritten-later by later size dns own le written)),
    )

-- A write of the region server, where its acknowledgements have been processed.
pub write_req-Replicated :
    (rs : RegionServer) (client_id write_size fresh : ℕ) (draws : List ℕ) (m : Made)
    → 0 < rs.hdfs.replica
    → 0 < write_size
    → write_req rs client_id write_size fresh draws ≡ ok (some m)
    → {at : Times} {now by : ℕ} {end : Option ℕ} {log : List Use} (w_id : Option ℕ)
    → Run at now (process w_id none none m.made) end log
    → at m.done_evt ≡ some by
    → Replicated rs by write_size log
unfolding write_req
write_req-Replicated rs client_id write_size fresh draws m large some_data e {at} {now} {by} {end}
      {log} w_id run done =
    streamed
      (get_hdfs_write_req rs.times.datanode rs.hdfs (some rs.phy_node.name) client_id write_size
        (fresh + 2) draws)
      refl e
  where
    streamed :
        (o : Result (Option Made))
        → get_hdfs_write_req rs.times.datanode rs.hdfs
            (some rs.phy_node.name)
            client_id
            write_size
            (fresh + 2)
            draws
          ≡ o
        → with_made o (λ write. ok (some (stream_req rs client_id write_size fresh write)))
          ≡ ok (some m)
        → Replicated rs by write_size log
    streamed (err x) made e' = absurd (cc)
    streamed (ok none) made e' = absurd (cc)
    streamed (ok (some w)) made e' =
        let same =
          some-injective (stream_req rs client_id write_size fresh w) m (ok-injective e') in
        let (((earlier, acked, le), _), inside) =
          pair-run w_id fresh rs.data_stream_stage client_id
            ((rs.phy_node.cpu_res, rs.times.stream_cpu_ratio * write_size)
              ∷ (rs.phy_node.net_res, 0)
              ∷ [])
            w.made (suc fresh) rs.ack_process_stage client_id [] (w.done_evt ∷ [])
            (subst (λ x. Run at now (process w_id none none x.made) end log) (sym same) run)
            (subst (λ x. at x.done_evt ≡ some by) (sym same) done) in
        Replicated-inside rs earlier by write_size inside.before inside.own inside.after log le
          inside.whole
          (acked-replicated rs.times.datanode rs.hdfs (some rs.phy_node.name) client_id write_size
            (fresh + 2) draws w large some_data made inside.w_id inside.run acked)

-- The log of a request, where its synchronization has succeeded.
pub synced-Replicated :
    (rs : RegionServer) (r : HbaseReq) (wal_id fresh : ℕ) (draws : List ℕ) (w : Made)
    → 0 < rs.hdfs.replica
    → 0 < r.log_append_size
    → write_req rs wal_id r.log_append_size (fresh + 2) draws ≡ ok (some w)
    → {at : Times} {now by : ℕ} {end : Option ℕ} {log : List Use} (w_id : Option ℕ)
    → Run at now
        (process w_id none none (
          append_req rs r (suc fresh) (
            req w.made (
              req
                (stage_req fresh rs.log_sync_stage wal_id 0 [] (w.done_evt ∷ []) no_reqs no_reqs)
                no_reqs))))
        end
        log
    → at fresh ≡ some by
    → Replicated rs by r.log_append_size log
synced-Replicated rs r wal_id fresh draws w large some_data made {at} {now} {by} {end} {log} w_id
      run done =
    let (((earlier, written, le), _), inside) =
      pair-run w_id (suc fresh) rs.log_append_stage r.client_id
        ((rs.phy_node.cpu_res, rs.times.log_append_cpu_time) ∷ []) w.made fresh rs.log_sync_stage
        wal_id [] (w.done_evt ∷ []) run done in
    Replicated-inside rs earlier by r.log_append_size inside.before inside.own inside.after log le
      inside.whole
      (write_req-Replicated rs wal_id r.log_append_size (fresh + 2) draws w large some_data made
        inside.w_id inside.run written)
