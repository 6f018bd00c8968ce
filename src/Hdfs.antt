-- ===== src/Hdfs.antt =====
-- hbase/hdfs.py: the requests that HDFS makes of its NameNode and its DataNodes. Amounts are
-- multiples of a unit in which the constants of the code are whole numbers. `fresh` is the ident of
-- the next request, and the numbers that random.randrange returns are a list of draws.
pub mod Pipeline
pub mod Placement
pub mod Writes
use tam_simulation.Prelude.{
  ℕ, suc, ◌+◌, ◌*◌, Bool, true, false, not, ◌&&◌, Option, none, some, List, [], ◌∷◌, ◌++◌, ◌==◌,
  ltb, leb, length, contains, get_elem?, if◌then◌else◌,
}
use tam_simulation.Result.{
  Result, ok, err, runtime_error, index_error, value_error, ◌>>=◌, ◌>>◌, assert,
}
use tam_simulation.StageReq.{StageReq, stage_req, Reqs, no_reqs, req}

-- The resources of a physical node.
pub record PhyNode : Type 0 where
  pub name : ℕ
  pub cpu_res : ℕ
  pub io_res : ℕ
  pub net_res : ℕ

-- SimpleDataNode; `ident` is the object's identity.
pub record DataNode : Type 0 where
  pub ident : ℕ
  pub phy_node : PhyNode
  pub xceive_stage : ℕ
  pub packet_ack_stage : ℕ

-- DN_PER_REQ_CPU_TIME, ACK_SIZE_RATIO and ACK_CPU_RATIO
pub record Ratios : Type 0 where
  pub dn_per_req_cpu_time : ℕ
  pub ack_size_ratio : ℕ
  pub ack_cpu_ratio : ℕ

-- A request with the event of its completion, and the next ident.
pub record Made : Type 0 where
  pub made : StageReq
  pub done_evt : ℕ
  pub fresh : ℕ

-- SimpleDataNode.get_read_req
unfoldable pub get_read_req : Ratios → DataNode → (client_id read_size fresh : ℕ) → Made
get_read_req k dn client_id read_size fresh = record {
  made =
      stage_req fresh dn.xceive_stage client_id 0
        ((dn.phy_node.io_res, read_size)
          ∷ (dn.phy_node.net_res, read_size)
          ∷ (dn.phy_node.cpu_res, k.dn_per_req_cpu_time)
          ∷ [])
        [] no_reqs no_reqs;
  done_evt = fresh;
  fresh = suc fresh;
}

-- SimpleDataNode.get_short_circuit_req
unfoldable pub get_short_circuit_req : DataNode → (client_id read_size fresh : ℕ) → Made
get_short_circuit_req dn client_id read_size fresh = record {
  made =
      stage_req fresh dn.xceive_stage client_id 0
        ((dn.phy_node.io_res, read_size) ∷ (dn.phy_node.net_res, 0) ∷ (dn.phy_node.cpu_res, 0) ∷ [])
        [] no_reqs no_reqs;
  done_evt = fresh;
  fresh = suc fresh;
}

abbrev pub write_resources : Ratios → DataNode → ℕ → List (ℕ × ℕ)
write_resources k dn write_size =
    (dn.phy_node.io_res, write_size)
    ∷ (dn.phy_node.net_res, write_size)
    ∷ (dn.phy_node.cpu_res, k.dn_per_req_cpu_time)
    ∷ []

abbrev pub ack_resources : Ratios → DataNode → ℕ → List (ℕ × ℕ)
ack_resources k dn write_size =
    (dn.phy_node.net_res, write_size * k.ack_size_ratio)
    ∷ (dn.phy_node.cpu_res, write_size * k.ack_cpu_ratio)
    ∷ []

-- SimpleDataNode.get_write_req, with the events that the acknowledgement waits for, and the requests
-- that follow it downstream.
abbrev pub write_req :
    Ratios → DataNode → (client_id write_size fresh : ℕ) → List ℕ → Reqs → ℕ → Made
write_req k dn client_id write_size fresh evts reqs next = record {
  made =
      stage_req fresh dn.xceive_stage client_id 0 (write_resources k dn write_size) []
        (req
          (stage_req (suc fresh) dn.packet_ack_stage client_id 0 (ack_resources k dn write_size)
            evts no_reqs no_reqs)
          reqs)
        no_reqs;
  done_evt = suc fresh;
  fresh = next;
}

unfoldable pub get_write_req :
    Ratios → DataNode → (client_id write_size fresh : ℕ) (downstream_dn_list : List DataNode) → Made
get_write_req k dn client_id write_size fresh [] =
    write_req k dn client_id write_size fresh [] no_reqs (fresh + 2)
get_write_req k dn client_id write_size fresh (downstream_dn ∷ dns) =
    let d = get_write_req k downstream_dn client_id write_size (fresh + 2) dns in
    write_req k dn client_id write_size fresh (d.done_evt ∷ []) (req d.made no_reqs) d.fresh

-- NameNode, and HDFS with it.
pub record Hdfs : Type 0 where
  pub rpc_process_stage : ℕ
  pub lock_res : ℕ
  pub datanode_list : List DataNode
  pub replica : ℕ

-- NameNode.get_metadata_req, and HDFS.get_namenode_req
unfoldable pub get_namenode_req : Hdfs → (client_id lookup_time fresh : ℕ) → Made
get_namenode_req hdfs client_id lookup_time fresh = record {
  made =
      stage_req fresh hdfs.rpc_process_stage client_id 0 ((hdfs.lock_res, lookup_time) ∷ []) []
        no_reqs no_reqs;
  done_evt = fresh;
  fresh = suc fresh;
}

-- `for node in self.datanode_list: if node.phy_node == phy_node`; HDFSClient asks with None.
abbrev pub local_datanode : Option ℕ → List DataNode → Option DataNode
local_datanode phy_node [] = none
local_datanode none (node ∷ nodes) = none
local_datanode (some name) (node ∷ nodes) =
    if node.phy_node.name == name then some node else local_datanode (some name) nodes

abbrev pub idents : List DataNode → List ℕ
idents [] = []
idents (node ∷ nodes) = node.ident ∷ idents nodes

-- The loop in HDFS.get_write_req, for as many draws as are given: the chosen nodes, or `none` where
-- it would draw again.
unfoldable pub choose :
    (datanode_list : List DataNode) (replica : ℕ) → List ℕ → List DataNode → Option (List DataNode)
choose datanode_list replica [] chosen = if ltb (length chosen) replica then none else some chosen
choose datanode_list replica (draw ∷ draws) chosen =
    let again = choose datanode_list replica draws chosen in
    let next : Option (List DataNode) = elim (get_elem? datanode_list draw) [
      | none ↦ none
      | some datanode ↦
          let more = choose datanode_list replica draws (chosen ++ datanode ∷ []) in
          if contains datanode.ident (idents chosen) then again else more
    ] in
    if ltb (length chosen) replica then next else some chosen

abbrev pub first_chosen : Option DataNode → List DataNode
first_chosen none = []
first_chosen (some node) = node ∷ []

-- HDFS.get_write_req. The value `ok none` stands for draws that end before the choice is made.
abbrev pub pipeline : Ratios → (client_id write_size fresh : ℕ) → List DataNode → Result Made
pipeline k client_id write_size fresh [] = err index_error
pipeline k client_id write_size fresh (datanode ∷ dns) =
    ok (get_write_req k datanode client_id write_size fresh dns)

unfoldable pub get_hdfs_write_req :
    Ratios
    → Hdfs
    → (phy_node : Option ℕ) (client_id write_size fresh : ℕ) → List ℕ
    → Result (Option Made)
get_hdfs_write_req k hdfs phy_node client_id write_size fresh draws = do
  assert (leb hdfs.replica (length hdfs.datanode_list))
  elim (choose hdfs.datanode_list hdfs.replica draws
      (first_chosen (local_datanode phy_node hdfs.datanode_list))) [
        | none ↦ ok none
        | some dns ↦ do w ← pipeline k client_id write_size fresh dns; ok (some w)
      ]

-- HDFS.get_read_req; randrange(0) raises a ValueError.
unfoldable pub get_hdfs_read_req :
    Ratios → Hdfs → (client_id read_size fresh draw : ℕ) → Result Made
get_hdfs_read_req k hdfs client_id read_size fresh draw = elim (get_elem? hdfs.datanode_list draw) [
  | none ↦ err value_error
  | some datanode ↦ ok (get_read_req k datanode client_id read_size fresh)
]

-- HDFS.get_short_circuit_req
unfoldable pub get_hdfs_short_circuit_req :
    Hdfs → (phy_node : Option ℕ) (client_id read_size fresh : ℕ) → Result Made
get_hdfs_short_circuit_req hdfs phy_node client_id read_size fresh =
    elim (local_datanode phy_node hdfs.datanode_list) [
      | none ↦ err runtime_error
      | some datanode ↦ ok (get_short_circuit_req datanode client_id read_size fresh)
    ]
