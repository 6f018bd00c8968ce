-- ===== src/Hdfs/Writes.antt =====
-- hbase/hdfs.py, HDFS.get_write_req as a whole: it ends where the draws reach every node, and what it
-- makes writes to `replica` different nodes.
use mathlib.Core.Path.{subst}
use mathlib.Core.Option.{some-injective}
use tam_simulation.Prelude.{
  ℕ, zero, suc, ◌≤◌, ◌<◌, ◌≡◌, refl, sym, ◌∙◌, inl, inr, true, false, Bool-cases, Option, none,
  some, List, [], ◌∷◌, ◌++◌, arith, ltb, leb, ◌==◌, ==_iff, length, contains, count, get_elem?,
  if◌then◌else◌,
}
use tam_simulation.Result.{ok, ok-injective, ◌>>=◌}
use tam_simulation.StageReq.Process.{process}
use tam_simulation.StageReq.Timing.{Times, Use, Run}
use tam_simulation.Hdfs.{
  DataNode, Ratios, Hdfs, Made, choose, idents, first_chosen, local_datanode, pipeline,
  get_write_req, get_hdfs_write_req,
}
use tam_simulation.Hdfs.Pipeline.{AllWritten, acked-AllWritten}
use tam_simulation.Hdfs.Placement.{
  IsPlaced, IsChoice, StartsWith, choose-IsChoice, AreDrawn, AreBelow, elem_below, all_chosen,
}

contains_ident-snoc :
    (i : ℕ) (dns : List DataNode) (dn : DataNode)
    → contains i (idents (dns ++ dn ∷ []))
      ≡ (if contains i (idents dns) then true else dn.ident == i)
contains_ident-snoc i [] dn = ground arith
contains_ident-snoc i (d ∷ dns) dn = ground (arith, contains_ident-snoc i dns dn)

-- A node that is drawn has been chosen then.
AreDrawn-skip :
    (nodes chosen : List DataNode) (draw : ℕ) (draws : List ℕ) (dn : DataNode)
    → get_elem? nodes draw ≡ some dn
    → contains dn.ident (idents chosen) ≡ true
    → AreDrawn nodes (draw ∷ draws) chosen
    → AreDrawn nodes draws chosen
AreDrawn-skip nodes chosen draw draws dn at known drawn i d at_i = elim (drawn i d at_i) [
  | inl chosen' ↦ inl chosen'
  | inr later ↦ elim (Bool-cases (draw == i)) [
    | inl same ↦ inl (
        let same_at : get_elem? nodes i ≡ some dn =
          subst (λ n. get_elem? nodes n ≡ some dn) ((==_iff draw i).0 same) at in
        let same_dn : dn ≡ d = some-injective dn d (sym same_at ∙ at_i) in
        subst (λ x. contains x.ident (idents chosen) ≡ true) same_dn known)
    | inr other ↦ inr (ground (arith, later, other))
  ]
]

AreDrawn-more :
    (nodes chosen : List DataNode) (draws : List ℕ) (dn : DataNode)
    → AreDrawn nodes draws chosen
    → AreDrawn nodes draws (chosen ++ dn ∷ [])
AreDrawn-more nodes chosen draws dn drawn i d at = elim (drawn i d at) [
  | inl chosen' ↦ inl (ground (arith, chosen', contains_ident-snoc d.ident chosen dn))
  | inr later ↦ inr later
]

-- Draws that reach every node are enough for the loop to end.
choose-ends :
    (nodes : List DataNode) (replica : ℕ) (draws : List ℕ) (chosen : List DataNode)
    → ((i : ℕ) → count i (idents nodes) ≤ 1)
    → replica ≤ length nodes
    → AreBelow (length nodes) draws
    → AreDrawn nodes draws chosen
    → (result : List DataNode) × (choose nodes replica draws chosen ≡ some result)
unfolding choose
choose-ends nodes replica [] chosen once le below drawn =
    let enough : ltb (length chosen) replica ≡ false =
      ground (arith, all_chosen nodes chosen once drawn, le) in
    rw enough (chosen, refl)
choose-ends nodes replica (draw ∷ draws) chosen once le (low, below) drawn =
    let (dn, at) = elem_below nodes draw low in
    elim (Bool-cases (ltb (length chosen) replica)) [
      | inr enough ↦ rw enough (chosen, refl)
      | inl more ↦ elim (Bool-cases (contains dn.ident (idents chosen))) [
        | inl again ↦
            rw (more, at, again)
              (choose-ends nodes replica draws chosen once le below
                (AreDrawn-skip nodes chosen draw draws dn at again drawn))
        | inr fresh ↦
            rw (more, at, fresh)
              (choose-ends nodes replica draws (chosen ++ dn ∷ []) once le below (
                AreDrawn-skip nodes (chosen ++ dn ∷ []) draw draws dn at
                  (ground (arith, contains_ident-snoc dn.ident chosen dn))
                  (AreDrawn-more nodes chosen (draw ∷ draws) dn drawn)))
      ]
    ]

elem-lt :
    (nodes : List DataNode) (i : ℕ) (dn : DataNode) → get_elem? nodes i ≡ some dn → i < length nodes
elem-lt [] i dn at = absurd (cc)
elem-lt (node ∷ nodes) zero dn at = omega arith
elem-lt (node ∷ nodes) (suc i) dn at = omega (arith, elem-lt nodes i dn at)

local_datanode-member :
    (nodes : List DataNode) (phy_node : Option ℕ) (dn : DataNode)
    → local_datanode phy_node nodes ≡ some dn
    → (i : ℕ) × (get_elem? nodes i ≡ some dn)
local_datanode-member [] phy_node dn e = absurd (cc)
local_datanode-member (node ∷ nodes) none dn e = absurd (cc)
local_datanode-member (node ∷ nodes) (some name) dn e =
    elim (Bool-cases (node.phy_node.name == name)) [
      | inl here ↦ (0, rw here at e)
      | inr other ↦
          let (i, at) = local_datanode-member nodes (some name) dn (rw other at e) in (suc i, at)
    ]

first_chosen-IsPlaced :
    (nodes : List DataNode) (o : Option DataNode)
    → ((dn : DataNode) → o ≡ some dn → (i : ℕ) × (get_elem? nodes i ≡ some dn))
    → IsPlaced nodes (first_chosen o)
first_chosen-IsPlaced nodes none member = record { members = tt; distinct = λ i. omega arith }
first_chosen-IsPlaced nodes (some dn) member = record {
  members = (member dn refl, tt);
  distinct = λ i. ground arith;
}

local-IsPlaced :
    (nodes : List DataNode) (phy_node : Option ℕ)
    → IsPlaced nodes (first_chosen (local_datanode phy_node nodes))
local-IsPlaced nodes phy_node =
    first_chosen-IsPlaced nodes (local_datanode phy_node nodes)
      (local_datanode-member nodes phy_node)

length-first_chosen : (o : Option DataNode) → length (first_chosen o) ≤ 1
length-first_chosen none = omega arith
length-first_chosen (some dn) = omega arith

-- What a write is made of: the pipeline through `replica` different nodes of the cluster, the local
-- one first where there is one.
pub record IsWrite (k : Ratios) (hdfs : Hdfs) (phy_node : Option ℕ) (client_id write_size fresh : ℕ)
    (m : Made) : Type 0 where
  pub head : DataNode
  pub tail : List DataNode
  pub made : m ≡ get_write_req k head client_id write_size fresh tail
  pub placed : IsPlaced hdfs.datanode_list (head ∷ tail)
  pub size : length (head ∷ tail) ≡ hdfs.replica
  pub local : StartsWith (first_chosen (local_datanode phy_node hdfs.datanode_list)) (head ∷ tail)

module _ (k : Ratios) (hdfs : Hdfs) (phy_node : Option ℕ) (client_id write_size fresh : ℕ) where
  choice-IsWrite :
      (chosen : List DataNode)
      → 0 < hdfs.replica
      → IsChoice hdfs.datanode_list hdfs.replica
          (first_chosen (local_datanode phy_node hdfs.datanode_list))
          chosen
      → (m : Made) × (pipeline k client_id write_size fresh chosen ≡ ok m)
        × IsWrite k hdfs phy_node client_id write_size fresh m
  choice-IsWrite [] large (placed, size, local) = absurd (omega (arith, size, large))
  choice-IsWrite (head ∷ tail) large (placed, size, local) = (
    get_write_req k head client_id write_size fresh tail,
    refl,
    record { head = head; tail = tail; made = refl; placed = placed; size = size; local = local },
  )

  local-IsChoice :
      (draws : List ℕ) (chosen : List DataNode)
      → 0 < hdfs.replica
      → choose hdfs.datanode_list hdfs.replica draws
          (first_chosen (local_datanode phy_node hdfs.datanode_list))
        ≡ some chosen
      → IsChoice hdfs.datanode_list hdfs.replica
          (first_chosen (local_datanode phy_node hdfs.datanode_list))
          chosen
  local-IsChoice draws chosen large e =
      let local = local_datanode phy_node hdfs.datanode_list in
      choose-IsChoice hdfs.datanode_list hdfs.replica draws (first_chosen local) chosen
        (local-IsPlaced hdfs.datanode_list phy_node)
        (omega (arith, length-first_chosen local, large)) e

  -- In a cluster with enough nodes, and with draws that reach each of them, a write is made, and it
  -- goes through `replica` different nodes, the local one first where there is one.
  pub get_hdfs_write_req-IsWrite :
      (draws : List ℕ)
      → 0 < hdfs.replica
      → hdfs.replica ≤ length hdfs.datanode_list
      → ((i : ℕ) → count i (idents hdfs.datanode_list) ≤ 1)
      → AreBelow (length hdfs.datanode_list) draws
      → ((i : ℕ) → i < length hdfs.datanode_list → contains i draws ≡ true)
      → (m : Made) × (get_hdfs_write_req k hdfs phy_node client_id write_size fresh draws
          ≡ ok (some m))
        × IsWrite k hdfs phy_node client_id write_size fresh m
  unfolding get_hdfs_write_req
  get_hdfs_write_req-IsWrite draws large enough once below reach =
      let local = local_datanode phy_node hdfs.datanode_list in
      let passes : leb hdfs.replica (length hdfs.datanode_list) ≡ true = ground (arith, enough) in
      let (chosen, e) =
        choose-ends hdfs.datanode_list hdfs.replica draws (first_chosen local) once enough below
          (λ i dn at. inr (reach i (elem-lt hdfs.datanode_list i dn at))) in
      let (m, made, is_write) = choice-IsWrite chosen large (local-IsChoice draws chosen large e) in
      (m, rw (passes, e, made) refl, is_write)

  made-IsWrite :
      (draws : List ℕ) (o : Option (List DataNode)) (m : Made)
      → 0 < hdfs.replica
      → choose hdfs.datanode_list hdfs.replica draws
          (first_chosen (local_datanode phy_node hdfs.datanode_list))
        ≡ o
      → (elim o [
        | none ↦ ok none
        | some dns ↦ pipeline k client_id write_size fresh dns >>= λ w. ok (some w)
      ])
        ≡ ok (some m)
      → IsWrite k hdfs phy_node client_id write_size fresh m
  made-IsWrite draws none m large chosen e = absurd (cc)
  made-IsWrite draws (some dns) m large chosen e =
      let (w, made, is_write) = choice-IsWrite dns large (local-IsChoice draws dns large chosen) in
      let e' = rw made at e in
      subst (IsWrite k hdfs phy_node client_id write_size fresh)
        (some-injective w m (ok-injective e')) is_write

  -- Whatever was drawn, where the write that was made has been acknowledged, `replica` different
  -- nodes of the cluster have written the data to their disks before, the local node among them
  -- where there is one.
  pub acked-replicated :
      (draws : List ℕ) (m : Made)
      → 0 < hdfs.replica
      → 0 < write_size
      → get_hdfs_write_req k hdfs phy_node client_id write_size fresh draws ≡ ok (some m)
      → {at : Times} {now by : ℕ} {end : Option ℕ} {log : List Use} (w_id : Option ℕ)
      → Run at now (process w_id none none m.made) end log
      → at m.done_evt ≡ some by
      → (dns : List DataNode) × IsPlaced hdfs.datanode_list dns
        × (length dns ≡ hdfs.replica)
        × StartsWith (first_chosen (local_datanode phy_node hdfs.datanode_list)) dns
        × AllWritten by write_size dns log
  unfolding get_hdfs_write_req
  acked-replicated draws m large some_data e {at} {now} {by} {end} {log} w_id run acked =
      elim (Bool-cases (leb hdfs.replica (length hdfs.datanode_list))) [
        | inr few ↦ let refused = rw few at e in absurd (cc)
        | inl enough ↦
            let w =
              made-IsWrite draws
                (choose hdfs.datanode_list hdfs.replica draws
                  (first_chosen (local_datanode phy_node hdfs.datanode_list)))
                m large refl (rw enough at e) in
            (
              w.head ∷ w.tail,
              w.placed,
              w.size,
              w.local,
              acked-AllWritten w_id k w.head client_id write_size fresh w.tail some_data
                  (subst (λ x. Run at now (process w_id none none x.made) end log) w.made run)
                  (subst (λ x. at x.done_evt ≡ some by) w.made acked),
            )
      ]
