-- ===== src/Hbase/ShortCircuit.antt =====
-- hbase/hbase.py, SCRegionServer.submit_req: short-circuited reads go through the datanode.
use tam_simulation.Prelude.{ℕ, suc, ◌+◌, Option, some, [], ◌∷◌, ltb, if◌then◌else◌}
use tam_simulation.Result.{Result, ok, ◌>>=◌, ◌>>◌, assert}
use tam_simulation.StageReq.{blk_stage_req, no_reqs, Profiles, profile}
use tam_simulation.Hdfs.{Made}
use tam_simulation.Hbase.{
  HbaseReq, RegionServer, Draws, Part, absent, with_made, nn_lookup, dn_read, sc_read, log_append,
  mem_update, dn_blocking, rpc_read_req,
}
use tam_simulation.Hbase.Original.{reply_profiles}

abbrev pub handle_profiles : RegionServer → HbaseReq → (nn dn log mem : Part) → ℕ → Profiles
handle_profiles rs r nn dn log mem fresh =
    profile (((rs.phy_node.cpu_res, r.rpc_time) ∷ []) ∷ []) nn.reqs nn.evts
      (dn_blocking dn (reply_profiles rs r log mem fresh))

unfoldable pub read_part : RegionServer → HbaseReq → (fresh draw : ℕ) → Result Part
read_part rs r fresh draw =
    if ltb 0 r.datanode_read_size
    then (if r.short_circuit then sc_read rs r fresh else dn_read rs r fresh draw)
    else ok (absent fresh)

-- submit_req
unfoldable pub submit_req : RegionServer → HbaseReq → ℕ → Draws → Result (Option Made)
submit_req rs r fresh draws = do
  let nn = nn_lookup rs r fresh
  dn ← read_part rs r nn.next draws.read
  with_made (log_append rs r rs.wal_id dn.next draws.write) (λ log. do
    let mem = mem_update rs r log.next
    let profiles = handle_profiles rs r nn dn log mem mem.next
    let handle = blk_stage_req (suc mem.next) rs.rpc_handle_stage r.client_id 0 profiles no_reqs
    assert (ltb 0 r.rpc_size)
    ok (
        some (record {
          made = rpc_read_req rs r (mem.next + 2) handle;
          done_evt = mem.next;
          fresh = mem.next + 3;
        })))
