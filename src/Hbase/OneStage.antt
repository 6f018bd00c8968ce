-- ===== src/Hbase/OneStage.antt =====
-- hbase/hbase.py, OneStagePerResRegionServer and OneStagePerResHBase: one stage for each resource,
-- and the data on the region servers themselves.
pub mod Early
use tam_simulation.Prelude.{
  ℕ, suc, ◌+◌, Option, none, some, List, [], ◌∷◌, ◌++◌, length, ltb, leb, contains, get_elem?,
  if◌then◌else◌,
}
use tam_simulation.Result.{Result, ok, err, attribute_error, index_error, ◌>>=◌, ◌>>◌, assert}
use tam_simulation.StageReq.{StageReq, stage_req, Reqs, no_reqs, req}
use tam_simulation.Hdfs.{PhyNode, Made}
use tam_simulation.Hbase.{HbaseReq, CpuTimes, Part, absent, present, with_made}

-- OneStagePerResRegionServer; `ident` is the object's identity.
pub record ResServer : Type 0 where
  pub ident : ℕ
  pub times : CpuTimes
  pub phy_node : PhyNode
  pub wal_id : ℕ
  pub cpu_stage : ℕ
  pub net_stage : ℕ
  pub io_stage : ℕ
  pub log_sync_stage : ℕ
  pub log_append_stage : ℕ
  pub packet_ack_stage : ℕ

-- OneStagePerResRegionServer.get_write_req
abbrev pub io_req : ResServer → (client_id write_size fresh : ℕ) → List ℕ → Reqs → ℕ → Made
io_req rs client_id write_size fresh evts reqs next = record {
  made =
      stage_req fresh rs.io_stage client_id 0 ((rs.phy_node.io_res, write_size) ∷ []) []
        (req (stage_req (suc fresh) rs.packet_ack_stage client_id 0 [] evts no_reqs no_reqs) reqs)
        no_reqs;
  done_evt = suc fresh;
  fresh = next;
}

unfoldable pub get_write_req :
    ResServer → (client_id write_size fresh : ℕ) (downstream_list : List ResServer) → Made
get_write_req rs client_id write_size fresh [] =
    io_req rs client_id write_size fresh [] no_reqs (fresh + 2)
get_write_req rs client_id write_size fresh (downstream_node ∷ nodes) =
    let d = get_write_req downstream_node client_id write_size (fresh + 2) nodes in
    io_req rs client_id write_size fresh (d.done_evt ∷ []) (req d.made no_reqs) d.fresh

abbrev pub idents : List ResServer → List ℕ
idents [] = []
idents (rs ∷ rss) = rs.ident ∷ idents rss

-- The loop in OneStagePerResHBase.get_hbase_write_req.
unfoldable pub choose :
    (rs_list : List ResServer) (replica : ℕ) → List ℕ → List ResServer → Option (List ResServer)
choose rs_list replica [] chosen = if ltb (length chosen) replica then none else some chosen
choose rs_list replica (draw ∷ draws) chosen =
    let again = choose rs_list replica draws chosen in
    let next : Option (List ResServer) = elim (get_elem? rs_list draw) [
      | none ↦ none
      | some node ↦
          let more = choose rs_list replica draws (chosen ++ node ∷ []) in
          if contains node.ident (idents chosen) then again else more
    ] in
    if ltb (length chosen) replica then next else some chosen

abbrev pub pipeline : (client_id write_size fresh : ℕ) → List ResServer → Result Made
pipeline client_id write_size fresh [] = err index_error
pipeline client_id write_size fresh (node ∷ nodes) =
    ok (get_write_req node client_id write_size fresh nodes)

-- OneStagePerResHBase.get_hbase_write_req
unfoldable pub get_hbase_write_req :
    (rs_list : List ResServer) (replica : ℕ)
    → ResServer
    → (client_id write_size fresh : ℕ) → List ℕ
    → Result (Option Made)
get_hbase_write_req rs_list replica local_node client_id write_size fresh draws = do
  assert (leb replica (length rs_list))
  assert (contains local_node.ident (idents rs_list))
  elim (choose rs_list replica draws (local_node ∷ [])) [
    | none ↦ ok none
    | some nodes ↦ do w ← pipeline client_id write_size fresh nodes; ok (some w)
  ]

-- The read of submit_req. OneStagePerResHBase has no method `get_hbase_read_req`.
unfoldable pub read_part : ResServer → HbaseReq → ℕ → Result Part
read_part rs r fresh =
    if ltb 0 r.datanode_read_size
    then (if r.short_circuit
        then ok (
            present (record {
              made =
                  stage_req fresh rs.io_stage r.client_id 0
                    ((rs.phy_node.io_res, r.datanode_read_size) ∷ []) [] no_reqs no_reqs;
              done_evt = fresh;
              fresh = suc fresh;
            }))
        else err attribute_error)
    else ok (absent fresh)

abbrev pub append_req : ResServer → HbaseReq → ℕ → Reqs → StageReq
append_req rs r fresh reqs =
    stage_req fresh rs.log_append_stage r.client_id 0
      ((rs.phy_node.cpu_res, rs.times.log_append_cpu_time) ∷ []) [] reqs no_reqs

abbrev pub synced : ResServer → HbaseReq → ℕ → Made → Part
synced rs r fresh write = record {
  reqs =
      req
        (append_req rs r (suc fresh) (
          req write.made (
            req
              (stage_req fresh rs.log_sync_stage rs.wal_id 0 [] (write.done_evt ∷ []) no_reqs
                no_reqs)
              no_reqs)))
        no_reqs;
  evts = fresh ∷ [];
  next = write.fresh;
}

abbrev pub unsynced : ResServer → HbaseReq → ℕ → Made → Part
unsynced rs r fresh write = record {
  reqs = req (append_req rs r fresh (req write.made no_reqs)) no_reqs;
  evts = [];
  next = write.fresh;
}

unfoldable pub log_append :
    (rs_list : List ResServer) (replica : ℕ)
    → ResServer
    → HbaseReq
    → ℕ
    → List ℕ
    → Result (Option Part)
log_append rs_list replica rs r fresh draws =
    if ltb 0 r.log_append_size
    then (if r.log_sync
        then with_made
            (get_hbase_write_req rs_list replica rs rs.wal_id r.log_append_size (fresh + 2) draws)
            (λ w. ok (some (synced rs r fresh w)))
        else with_made
            (get_hbase_write_req rs_list replica rs rs.wal_id r.log_append_size (suc fresh) draws)
            (λ w. ok (some (unsynced rs r fresh w))))
    else ok (some (absent fresh))

abbrev pub and_then : Reqs → Reqs → Reqs
and_then no_reqs rs = rs
and_then (req r qs) rs = req r (and_then qs rs)

-- rpc_handle_req: everything is submitted before any of the events is waited for.
abbrev pub handle_req : ResServer → HbaseReq → (dn log : Part) → List ℕ → ℕ → StageReq
handle_req rs r dn log evts fresh =
    stage_req (suc fresh) rs.cpu_stage r.client_id 0 ((rs.phy_node.cpu_res, r.rpc_time) ∷ []) evts
      (and_then dn.reqs (
        and_then log.reqs (
          req
            (stage_req fresh rs.net_stage r.client_id 0 ((rs.phy_node.net_res, r.reply_size) ∷ [])
              [] no_reqs no_reqs)
            no_reqs)))
      no_reqs

-- submit_req of OneStagePerResRegionServer.
unfoldable pub submit_req :
    (rs_list : List ResServer) (replica : ℕ)
    → ResServer
    → HbaseReq
    → ℕ
    → List ℕ
    → Result (Option Made)
submit_req rs_list replica rs r fresh draws = do
  dn ← read_part rs r fresh
  with_made (log_append rs_list replica rs r dn.next draws) (λ log. do
    let handle = handle_req rs r dn log (dn.evts ++ log.evts) log.next
    assert (ltb 0 r.rpc_size)
    ok (
        some (record {
          made =
              stage_req (log.next + 2) rs.net_stage r.client_id 0
                ((rs.phy_node.net_res, r.rpc_size) ∷ []) [] (req handle no_reqs) no_reqs;
          done_evt = log.next;
          fresh = log.next + 3;
        })))

-- submit_req of AsyncOneStagePerResRegionServer, which does not wait for the read there, but whose
-- completion is that of the reply and of the read: the events of both.
unfoldable pub async_submit_req :
    (rs_list : List ResServer) (replica : ℕ)
    → ResServer
    → HbaseReq
    → ℕ
    → List ℕ
    → Result (Option (StageReq × List ℕ))
async_submit_req rs_list replica rs r fresh draws = do
  dn ← read_part rs r fresh
  with_made (log_append rs_list replica rs r dn.next draws) (λ log. do
    let handle = handle_req rs r dn log log.evts log.next
    assert (ltb 0 r.rpc_size)
    ok (
        some (
          stage_req (log.next + 2) rs.net_stage r.client_id 0
              ((rs.phy_node.net_res, r.rpc_size) ∷ []) [] (req handle no_reqs) no_reqs,
          log.next ∷ dn.evts,
        )))

-- OneStagePerResHBase.get_base_read_req, for the node that was drawn: the disk, then the network of
-- both nodes.
unfoldable pub get_base_read_req :
    (dst_node local_node : ResServer) (client_id read_size fresh : ℕ) → Made
get_base_read_req dst_node local_node client_id read_size fresh = record {
  made =
      stage_req fresh dst_node.io_stage client_id 0 ((dst_node.phy_node.io_res, read_size) ∷ []) []
        (req
          (stage_req (suc fresh) dst_node.net_stage client_id 0
            ((dst_node.phy_node.net_res, read_size) ∷ []) []
            (req
              (stage_req (fresh + 2) local_node.net_stage client_id 0
                ((local_node.phy_node.net_res, read_size) ∷ []) [] no_reqs no_reqs)
              no_reqs)
            no_reqs)
          no_reqs)
        no_reqs;
  done_evt = fresh + 2;
  fresh = fresh + 3;
}
