-- ===== src/Tests/Writes.antt =====
-- Requests of stages, and writes of HDFS and of HBase, on a cluster of two nodes.
use tam_simulation.Prelude.{
  ℕ, ◌+◌, ◌≤◌, ◌<◌, ◌≡◌, refl, none, some, List, [], ◌∷◌, true, false, arith, length, count,
  contains, ◌==◌,
}
use tam_simulation.Result.{ok}
use tam_simulation.StageReq.{StageReq, blk_stage_req, no_reqs, profile, no_profiles}
use tam_simulation.StageReq.Process.{process}
use tam_simulation.StageReq.Totals.{used, get_res_consumption, used-process}
use tam_simulation.StageReq.Timing.Instant.{instant-process}
use tam_simulation.Hdfs
use tam_simulation.Hdfs.{
  PhyNode, DataNode, Ratios, Hdfs, Made, get_write_req, get_hdfs_write_req, choose, first_chosen,
  local_datanode, get_namenode_req, get_hdfs_read_req, get_read_req,
}
use tam_simulation.Hdfs.Pipeline.{AllWritten, acked-AllWritten}
use tam_simulation.Hdfs.Placement.{IsPlaced, StartsWith}
use tam_simulation.Hdfs.Writes.{IsWrite, get_hdfs_write_req-IsWrite, acked-replicated}
use tam_simulation.Hbase.{
  HbaseReq, RegionServer, Draws, write_req, log_append, mem_update, nn_lookup,
}
use tam_simulation.Hbase.Durable.{Replicated}
use tam_simulation.Hbase.Original
use tam_simulation.Hbase.ShortCircuit
use tam_simulation.Hbase.SeparateWal
use tam_simulation.Hbase.SeparateWal.Handled.{separate_wal-durable}
use tam_simulation.Hbase.Sync.{original-durable, short_circuit-durable}

abbrev mixed : StageReq
mixed =
    blk_stage_req 0 1 7 0
      (profile (((1, 5) ∷ (2, 0) ∷ []) ∷ ((1, 2) ∷ []) ∷ []) no_reqs (3 ∷ []) no_profiles) no_reqs

used-process_example : used (λ s. s == 1) (process none none none mixed) ≡ 7
unfolding get_res_consumption
used-process_example = used-process 1 none none mixed 7 tt refl

abbrev ratios : Ratios
ratios = record { dn_per_req_cpu_time = 1; ack_size_ratio = 2; ack_cpu_ratio = 3 }

abbrev node : ℕ → DataNode
node i = record {
  ident = i;
  phy_node = record { name = i; cpu_res = 10 + i; io_res = 20 + i; net_res = 30 + i };
  xceive_stage = 40 + i;
  packet_ack_stage = 50 + i;
}

abbrev two_nodes : Hdfs
two_nodes = record {
  rpc_process_stage = 1;
  lock_res = 2;
  datanode_list = node 1 ∷ node 2 ∷ [];
  replica = 2;
}

abbrev pipe : Made
pipe = get_write_req ratios (node 1) 7 5 0 (node 2 ∷ [])

acked-AllWritten_example : AllWritten 0 5 (node 1 ∷ node 2 ∷ []) (instant-process pipe.made).log
acked-AllWritten_example =
    acked-AllWritten none ratios (node 1) 7 5 0 (node 2 ∷ []) (omega arith)
      (instant-process pipe.made).run refl

two_distinct : (i : ℕ) → count i (Hdfs.idents two_nodes.datanode_list) ≤ 1
two_distinct i = ground arith

both_drawn : (i : ℕ) → i < 2 → contains i (1 ∷ 1 ∷ 0 ∷ []) ≡ true
both_drawn i low = ground (arith, low)

get_hdfs_write_req-IsWrite_example :
    (m : Made) × (get_hdfs_write_req ratios two_nodes (some 2) 7 5 0 (1 ∷ 1 ∷ 0 ∷ []) ≡ ok (some m))
    × IsWrite ratios two_nodes (some 2) 7 5 0 m
get_hdfs_write_req-IsWrite_example =
    get_hdfs_write_req-IsWrite ratios two_nodes (some 2) 7 5 0 (1 ∷ 1 ∷ 0 ∷ []) (omega arith)
      (omega arith) two_distinct (omega arith, (omega arith, (omega arith, tt))) both_drawn

abbrev chosen_pipe : Made
chosen_pipe = get_write_req ratios (node 2) 7 5 0 (node 1 ∷ [])

two_chosen :
    get_hdfs_write_req ratios two_nodes (some 2) 7 5 0 (1 ∷ 1 ∷ 0 ∷ []) ≡ ok (some chosen_pipe)
unfolding get_hdfs_write_req choose
two_chosen = refl

acked-replicated_example :
    (dns : List DataNode) × IsPlaced two_nodes.datanode_list dns
    × (length dns ≡ two_nodes.replica)
    × StartsWith (first_chosen (local_datanode (some 2) two_nodes.datanode_list)) dns
    × AllWritten 0 5 dns (instant-process chosen_pipe.made).log
acked-replicated_example =
    acked-replicated ratios two_nodes (some 2) 7 5 0 (1 ∷ 1 ∷ 0 ∷ []) chosen_pipe (omega arith)
      (omega arith) two_chosen none (instant-process chosen_pipe.made).run refl

abbrev server : RegionServer
server = record {
  times = record {
    send_reply_cpu_time = 1;
    receive_data_cpu_time = 1;
    read_rpc_cpu_time = 1;
    stream_cpu_ratio = 1;
    log_append_cpu_time = 1;
    datanode = ratios;
  };
  phy_node = (node 2).phy_node;
  hdfs = two_nodes;
  wal_id = 9999;
  rpc_read_stage = 61;
  rpc_handle_stage = 62;
  rpc_respond_stage = 63;
  mem_flush_stage = 64;
  log_append_stage = 65;
  log_sync_stage = 66;
  data_stream_stage = 67;
  ack_process_stage = 68;
}

abbrev put : HbaseReq
put = record {
  client_id = 7;
  rpc_size = 3;
  reply_size = 1;
  rpc_time = 2;
  mem_update_size = 4;
  log_append_size = 5;
  log_sync = true;
  namenode_lookup_time = 1;
  datanode_read_size = 6;
  short_circuit = false;
}

abbrev draws : Draws
draws = record { write = 1 ∷ 1 ∷ 0 ∷ []; read = 0 }

submitted : (m : Made) × (Original.submit_req server put 0 draws ≡ ok (some m))
unfolding Original.submit_req Original.read_part nn_lookup log_append mem_update write_req
    get_hdfs_write_req choose get_hdfs_read_req
submitted = (_, refl)

original-durable_example : Replicated server 0 5 (instant-process submitted.0.made).log
original-durable_example =
    original-durable server put 0 draws submitted.0 (omega arith) refl (omega arith) submitted.1
      none (instant-process submitted.0.made).run refl

sc_submitted : (m : Made) × (ShortCircuit.submit_req server put 0 draws ≡ ok (some m))
unfolding ShortCircuit.submit_req ShortCircuit.read_part nn_lookup log_append mem_update write_req
    get_hdfs_write_req choose get_hdfs_read_req
sc_submitted = (_, refl)

short_circuit-durable_example : Replicated server 0 5 (instant-process sc_submitted.0.made).log
short_circuit-durable_example =
    short_circuit-durable server put 0 draws sc_submitted.0 (omega arith) refl (omega arith)
      sc_submitted.1 none (instant-process sc_submitted.0.made).run refl

sep_submitted : (m : Made) × (SeparateWal.submit_req server put 0 draws ≡ ok (some m))
unfolding SeparateWal.submit_req ShortCircuit.read_part nn_lookup log_append mem_update write_req
    get_hdfs_write_req choose get_hdfs_read_req
sep_submitted = (_, refl)

separate_wal-durable_example : Replicated server 0 5 (instant-process sep_submitted.0.made).log
separate_wal-durable_example =
    separate_wal-durable server put 0 draws sep_submitted.0 (omega arith) refl (omega arith)
      sep_submitted.1 none (instant-process sep_submitted.0.made).run refl
