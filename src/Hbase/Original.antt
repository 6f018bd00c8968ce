-- ===== src/Hbase/Original.antt =====
-- hbase/hbase.py, RegionServer.submit_req.
use tam_simulation.Prelude.{ℕ, suc, ◌+◌, not, ◌&&◌, Option, some, [], ◌∷◌, ltb, if◌then◌else◌}
use tam_simulation.Result.{Result, ok, ◌>>=◌, ◌>>◌, assert}
use tam_simulation.StageReq.{blk_stage_req, no_reqs, req, Profiles, no_profiles, profile}
use tam_simulation.Hdfs.{Made}
use tam_simulation.Hbase.{
  HbaseReq, RegionServer, Draws, Part, absent, with_made, nn_lookup, dn_read, log_append,
  mem_update, dn_blocking, receive_costs, respond_req, rpc_read_req,
}

-- The rpc handling from its third part on, which ends by passing on the reply.
abbrev pub reply_profiles : RegionServer → HbaseReq → Part → Part → ℕ → Profiles
reply_profiles rs r log mem fresh = profile (receive_costs rs r) log.reqs log.evts (
    profile ([] ∷ []) mem.reqs []
      (profile ([] ∷ []) (req (respond_req rs r fresh) no_reqs) [] no_profiles))

-- A short-circuited read is performed within the rpc handle stage.
abbrev pub handle_profiles : RegionServer → HbaseReq → (nn dn log mem : Part) → ℕ → Profiles
handle_profiles rs r nn dn log mem fresh =
    profile
      (((rs.phy_node.cpu_res, r.rpc_time)
          ∷ (
            rs.phy_node.io_res,
            if ltb 0 r.datanode_read_size && r.short_circuit then r.datanode_read_size else 0,
          )
          ∷ [])
        ∷ [])
      nn.reqs nn.evts (dn_blocking dn (reply_profiles rs r log mem fresh))

unfoldable pub read_part : RegionServer → HbaseReq → (fresh draw : ℕ) → Result Part
read_part rs r fresh draw =
    if ltb 0 r.datanode_read_size && not r.short_circuit
    then dn_read rs r fresh draw
    else ok (absent fresh)

-- submit_req: the request that is submitted, and the completion event.
unfoldable pub submit_req : RegionServer → HbaseReq → ℕ → Draws → Result (Option Made)
submit_req rs r fresh draws = do
  let nn = nn_lookup rs r fresh
  dn ← read_part rs r nn.next draws.read
  with_made (log_append rs r rs.wal_id dn.next draws.write) (λ log. do
    let mem = mem_update rs r log.next
    let profiles = handle_profiles rs r nn dn log mem mem.next
    let handle = blk_stage_req (suc mem.next) rs.rpc_handle_stage r.client_id 0 profiles no_reqs
    assert (ltb 0 r.rpc_size)
    ok (
        some (record {
          made = rpc_read_req rs r (mem.next + 2) handle;
          done_evt = mem.next;
          fresh = mem.next + 3;
        })))
