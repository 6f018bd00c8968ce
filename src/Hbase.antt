-- ===== src/Hbase.antt =====
-- hbase/hbase.py: an HBase request, and the parts of the requests that every region server makes of
-- it. A part is the request that is None in the code where it is not needed, with the event that is
-- waited for with it, so an absent part has neither.
pub mod Original
pub mod ShortCircuit
pub mod SeparateWal
pub mod AsyncHandler
pub mod Durable
pub mod Replies
pub mod Sync
pub mod OneStage
use tam_simulation.Prelude.{
  ℕ, suc, ◌+◌, ◌*◌, Bool, true, false, not, ◌&&◌, Option, none, some, List, [], ◌∷◌, ltb,
  if◌then◌else◌,
}
use tam_simulation.Result.{Result, ok, err, ◌>>=◌, ◌>>◌, assert}
use tam_simulation.StageReq.{
  StageReq, stage_req, blk_stage_req, update_mem_store_req, Reqs, no_reqs, req, Profiles,
  no_profiles, profile,
}
use tam_simulation.Hdfs.{
  PhyNode, Hdfs, Ratios, Made, get_namenode_req, get_hdfs_read_req, get_hdfs_write_req,
  get_hdfs_short_circuit_req,
}

-- HBaseReq
pub record HbaseReq : Type 0 where
  pub client_id : ℕ
  pub rpc_size : ℕ
  pub reply_size : ℕ
  pub rpc_time : ℕ
  pub mem_update_size : ℕ
  pub log_append_size : ℕ
  pub log_sync : Bool
  pub namenode_lookup_time : ℕ
  pub datanode_read_size : ℕ
  pub short_circuit : Bool

-- The constants of RegionServer, and those of the DataNodes.
pub record CpuTimes : Type 0 where
  pub send_reply_cpu_time : ℕ
  pub receive_data_cpu_time : ℕ
  pub read_rpc_cpu_time : ℕ
  pub stream_cpu_ratio : ℕ
  pub log_append_cpu_time : ℕ
  pub datanode : Ratios

-- RegionServer, with the HDFS that its HBase writes to.
pub record RegionServer : Type 0 where
  pub times : CpuTimes
  pub phy_node : PhyNode
  pub hdfs : Hdfs
  pub wal_id : ℕ
  pub rpc_read_stage : ℕ
  pub rpc_handle_stage : ℕ
  pub rpc_respond_stage : ℕ
  pub mem_flush_stage : ℕ
  pub log_append_stage : ℕ
  pub log_sync_stage : ℕ
  pub data_stream_stage : ℕ
  pub ack_process_stage : ℕ

-- What random.randrange returns to the choice of nodes for the log, and for a read.
pub record Draws : Type 0 where
  pub write : List ℕ
  pub read : ℕ

-- The code that goes on with what was made; `ok none` is where the draws end too early.
abbrev pub with_made {ℓ κ} :
    {A : Type ℓ} {B : Type κ} → Result (Option A) → (A → Result (Option B)) → Result (Option B)
with_made (err e) rest = err e
with_made (ok none) rest = ok none
with_made (ok (some a)) rest = rest a

abbrev pub stream_req : RegionServer → (client_id write_size fresh : ℕ) → Made → Made
stream_req rs client_id write_size fresh write = record {
  made =
      stage_req fresh rs.data_stream_stage client_id 0
        ((rs.phy_node.cpu_res, rs.times.stream_cpu_ratio * write_size)
          ∷ (rs.phy_node.net_res, 0)
          ∷ [])
        []
        (req write.made (
          req
            (stage_req (suc fresh) rs.ack_process_stage client_id 0 [] (write.done_evt ∷ []) no_reqs
              no_reqs)
            no_reqs))
        no_reqs;
  done_evt = suc fresh;
  fresh = write.fresh;
}

-- RegionServer.get_hdfs_write_req
unfoldable pub write_req :
    RegionServer → (client_id write_size fresh : ℕ) → List ℕ → Result (Option Made)
write_req rs client_id write_size fresh draws =
    with_made
      (get_hdfs_write_req rs.times.datanode rs.hdfs (some rs.phy_node.name) client_id write_size
        (fresh + 2) draws)
      (λ write. ok (some (stream_req rs client_id write_size fresh write)))

pub record Part : Type 0 where
  pub reqs : Reqs
  pub evts : List ℕ
  pub next : ℕ

abbrev pub absent : ℕ → Part
absent fresh = record { reqs = no_reqs; evts = []; next = fresh }

abbrev pub present : Made → Part
present m = record { reqs = req m.made no_reqs; evts = m.done_evt ∷ []; next = m.fresh }

-- `if hbase_req.namenode_lookup_time > 0`
unfoldable pub nn_lookup : RegionServer → HbaseReq → ℕ → Part
nn_lookup rs r fresh =
    if ltb 0 r.namenode_lookup_time
    then present (get_namenode_req rs.hdfs r.client_id r.namenode_lookup_time fresh)
    else absent fresh

-- A read from a datanode, with or without short circuit.
abbrev pub dn_read : RegionServer → HbaseReq → (fresh draw : ℕ) → Result Part
dn_read rs r fresh draw = do
  m ← get_hdfs_read_req rs.times.datanode rs.hdfs r.client_id r.datanode_read_size fresh draw
  ok (present m)

abbrev pub sc_read : RegionServer → HbaseReq → (fresh : ℕ) → Result Part
sc_read rs r fresh = do
  m ←
      get_hdfs_short_circuit_req rs.hdfs (some rs.phy_node.name) r.client_id r.datanode_read_size
        fresh
  ok (present m)

-- log_append_req, with log_sync_req behind it where the reply waits for it.
abbrev pub append_req : RegionServer → HbaseReq → ℕ → Reqs → StageReq
append_req rs r fresh reqs =
    stage_req fresh rs.log_append_stage r.client_id 0
      ((rs.phy_node.cpu_res, rs.times.log_append_cpu_time) ∷ []) [] reqs no_reqs

abbrev pub synced : RegionServer → HbaseReq → (wal_id fresh : ℕ) → Made → Part
synced rs r wal_id fresh write = record {
  reqs =
      req
        (append_req rs r (suc fresh) (
          req write.made (
            req
              (stage_req fresh rs.log_sync_stage wal_id 0 [] (write.done_evt ∷ []) no_reqs no_reqs)
              no_reqs)))
        no_reqs;
  evts = fresh ∷ [];
  next = write.fresh;
}

abbrev pub unsynced : RegionServer → HbaseReq → ℕ → Made → Part
unsynced rs r fresh write = record {
  reqs = req (append_req rs r fresh (req write.made no_reqs)) no_reqs;
  evts = [];
  next = write.fresh;
}

-- `if hbase_req.log_append_size > 0`, for the client that the log is written as.
unfoldable pub log_append :
    RegionServer → HbaseReq → (wal_id fresh : ℕ) → List ℕ → Result (Option Part)
log_append rs r wal_id fresh draws =
    if ltb 0 r.log_append_size
    then (if r.log_sync
        then with_made (write_req rs wal_id r.log_append_size (fresh + 2) draws)
            (λ w. ok (some (synced rs r wal_id fresh w)))
        else with_made (write_req rs wal_id r.log_append_size (suc fresh) draws)
            (λ w. ok (some (unsynced rs r fresh w))))
    else ok (some (absent fresh))

-- `if hbase_req.mem_update_size > 0`
unfoldable pub mem_update : RegionServer → HbaseReq → ℕ → Part
mem_update rs r fresh =
    if ltb 0 r.mem_update_size
    then record {
      reqs =
          req (update_mem_store_req fresh rs.mem_flush_stage r.client_id r.mem_update_size) no_reqs;
      evts = [];
      next = suc fresh;
    }
    else absent fresh

-- The second part of rpc handling: `if dn_read_req is not None`.
abbrev pub dn_blocking : Part → Profiles → Profiles
dn_blocking part ps = reading part.reqs
  where
    reading : Reqs → Profiles
    reading no_reqs = ps
    reading (req r rs) = profile ([] ∷ []) part.reqs part.evts ps

-- The costs of receiving the data that was read, over the network, from the datanode.
abbrev pub receives : HbaseReq → Bool
receives r = ltb 0 r.datanode_read_size && not r.short_circuit

abbrev pub receive_costs : RegionServer → HbaseReq → List (List (ℕ × ℕ))
receive_costs rs r =
    ((rs.phy_node.cpu_res, if receives r then rs.times.receive_data_cpu_time else 0)
      ∷ (rs.phy_node.net_res, if receives r then r.datanode_read_size else 0)
      ∷ [])
    ∷ []

-- The reply of the rpc respond stage.
abbrev pub respond_req : RegionServer → HbaseReq → ℕ → StageReq
respond_req rs r fresh =
    stage_req fresh rs.rpc_respond_stage r.client_id 0
      ((rs.phy_node.cpu_res, rs.times.send_reply_cpu_time)
        ∷ (rs.phy_node.net_res, r.reply_size)
        ∷ [])
      [] no_reqs no_reqs

-- The request that comes in by the rpc read stage.
abbrev pub rpc_read_req : RegionServer → HbaseReq → ℕ → StageReq → StageReq
rpc_read_req rs r fresh handle =
    stage_req fresh rs.rpc_read_stage r.client_id 0
      ((rs.phy_node.cpu_res, rs.times.read_rpc_cpu_time) ∷ (rs.phy_node.net_res, r.rpc_size) ∷ [])
      [] (req handle no_reqs) no_reqs
