-- ===== src/Hdfs/Placement.antt =====
-- hbase/hdfs.py, HDFS.get_write_req: the DataNodes that a write goes to.
use mathlib.Core.Path.{subst}
use mathlib.Core.Option.{some-injective}
use tam_simulation.Prelude.{
  ℕ, zero, suc, ◌≤◌, ◌<◌, ◌≡◌, refl, inl, inr, ◌⊎◌, true, false, Bool-cases, Option, none, some,
  List, [], ◌∷◌, ◌++◌, arith, ltb, ◌==◌, ==_iff, ap, length, contains, count, contains_iff_count,
  erase, count-erase, length-snoc, get_elem?, if◌then◌else◌,
}
use tam_simulation.Hdfs.{DataNode, choose, idents}

-- `replica` nodes, each of the list and none twice.
abbrev pub AllIn : List DataNode → List DataNode → Type 0
AllIn nodes [] = Unit
AllIn nodes (dn ∷ dns) = ((i : ℕ) × (get_elem? nodes i ≡ some dn)) × AllIn nodes dns

pub record IsPlaced (nodes : List DataNode) (chosen : List DataNode) : Type 0 where
  pub members : AllIn nodes chosen
  pub distinct : (i : ℕ) → count i (idents chosen) ≤ 1

abbrev pub StartsWith : List DataNode → List DataNode → Type 0
StartsWith [] ys = Unit
StartsWith (x ∷ xs) [] = ⊥
StartsWith (x ∷ xs) (y ∷ ys) = (x ≡ y) × StartsWith xs ys

count-idents :
    (i : ℕ) (dns : List DataNode) (dn : DataNode)
    → count i (idents (dns ++ dn ∷ []))
      ≡ (if dn.ident == i then suc (count i (idents dns)) else count i (idents dns))
count-idents i [] dn = refl
count-idents i (d ∷ dns) dn = ground (arith, count-idents i dns dn)

AllIn-snoc :
    (nodes dns : List DataNode) (dn : DataNode) (i : ℕ)
    → get_elem? nodes i ≡ some dn
    → AllIn nodes dns
    → AllIn nodes (dns ++ dn ∷ [])
AllIn-snoc nodes [] dn i at h = ((i, at), tt)
AllIn-snoc nodes (d ∷ dns) dn i at (here, h) = (here, AllIn-snoc nodes dns dn i at h)

StartsWith-refl : (xs : List DataNode) → StartsWith xs xs
StartsWith-refl [] = tt
StartsWith-refl (x ∷ xs) = (refl, StartsWith-refl xs)

StartsWith-shorter : (xs ys zs : List DataNode) → StartsWith (xs ++ ys) zs → StartsWith xs zs
StartsWith-shorter [] ys zs h = tt
StartsWith-shorter (x ∷ xs) ys [] h = h
StartsWith-shorter (x ∷ xs) ys (z ∷ zs) (same, h) = (same, StartsWith-shorter xs ys zs h)

IsPlaced-snoc :
    (nodes dns : List DataNode) (dn : DataNode) (i : ℕ)
    → get_elem? nodes i ≡ some dn
    → contains dn.ident (idents dns) ≡ false
    → IsPlaced nodes dns
    → IsPlaced nodes (dns ++ dn ∷ [])
IsPlaced-snoc nodes dns dn i at fresh h = record {
  members = AllIn-snoc nodes dns dn i at h.members;
  distinct = λ j.
      ground (
        arith,
        h.distinct j,
        fresh,
        count-idents j dns dn,
        contains_iff_count dn.ident (idents dns),
      );
}

abbrev pub IsChoice : (nodes : List DataNode) (replica : ℕ) (chosen result : List DataNode) → Type 0
IsChoice nodes replica chosen result =
    IsPlaced nodes result × (length result ≡ replica) × StartsWith chosen result

enough-IsChoice :
    (nodes : List DataNode) (replica : ℕ) (chosen result : List DataNode)
    → IsPlaced nodes chosen
    → length chosen ≤ replica
    → ltb (length chosen) replica ≡ false
    → some chosen ≡ some result
    → IsChoice nodes replica chosen result
enough-IsChoice nodes replica chosen result h le enough e =
    subst (λ r. IsPlaced nodes r × (length r ≡ replica) × StartsWith chosen r)
      (some-injective chosen result e) (h, ground (arith, enough, le), StartsWith-refl chosen)

length-erase : (x : ℕ) (ys : List ℕ) → contains x ys ≡ true → suc (length (erase x ys)) ≡ length ys
length-erase x [] found = absurd (cc)
length-erase x (y ∷ ys) found = ground (arith, found, length-erase x ys)

extended-IsChoice :
    (nodes : List DataNode) (replica : ℕ) (chosen : List DataNode) (dn : DataNode)
    (result : List DataNode)
    → IsChoice nodes replica (chosen ++ dn ∷ []) result
    → IsChoice nodes replica chosen result
extended-IsChoice nodes replica chosen dn result (placed, size, starts) =
    (placed, size, StartsWith-shorter chosen (dn ∷ []) result starts)

-- After one draw, where the rest of the loop makes a choice.
drawn-IsChoice :
    (nodes : List DataNode) (replica draw : ℕ) (draws : List ℕ) (chosen result : List DataNode)
    → ((chosen' result : List DataNode)
        → IsPlaced nodes chosen'
        → length chosen' ≤ replica
        → choose nodes replica draws chosen' ≡ some result
        → IsChoice nodes replica chosen' result)
    → IsPlaced nodes chosen
    → (o : Option DataNode) → get_elem? nodes draw ≡ o
    → (elim o [
      | none ↦ none
      | some dn ↦
          if contains dn.ident (idents chosen)
          then choose nodes replica draws chosen
          else choose nodes replica draws (chosen ++ dn ∷ [])
    ])
      ≡ some result
    → length chosen < replica
    → IsChoice nodes replica chosen result
drawn-IsChoice nodes replica draw draws chosen result rest h none at e more = absurd (cc)
drawn-IsChoice nodes replica draw draws chosen result rest h (some dn) at e more =
    elim (Bool-cases (contains dn.ident (idents chosen))) [
      | inl again ↦ rest chosen result h (omega (arith, more)) (rw again at e)
      | inr fresh ↦ extended-IsChoice nodes replica chosen dn result (
          rest (chosen ++ dn ∷ []) result (IsPlaced-snoc nodes chosen dn draw at fresh h)
            (omega (arith, length-snoc chosen dn, more)) (rw fresh at e))
    ]

-- The loop, whatever is drawn: a choice has `replica` nodes of the list, none of them twice, and
-- begins with those that were chosen before it.
pub choose-IsChoice :
    (nodes : List DataNode) (replica : ℕ) (draws : List ℕ) (chosen result : List DataNode)
    → IsPlaced nodes chosen
    → length chosen ≤ replica
    → choose nodes replica draws chosen ≡ some result
    → IsPlaced nodes result × (length result ≡ replica) × StartsWith chosen result
unfolding choose
choose-IsChoice nodes replica [] chosen result h le e =
    elim (Bool-cases (ltb (length chosen) replica)) [
      | inl more ↦ let stuck = rw more at e in absurd (cc)
      | inr enough ↦ enough-IsChoice nodes replica chosen result h le enough (rw enough at e)
    ]
choose-IsChoice nodes replica (draw ∷ draws) chosen result h le e =
    elim (Bool-cases (ltb (length chosen) replica)) [
      | inr enough ↦ enough-IsChoice nodes replica chosen result h le enough (rw enough at e)
      | inl more ↦
          drawn-IsChoice nodes replica draw draws chosen result
            (choose-IsChoice nodes replica draws) h (get_elem? nodes draw) refl (rw more at e)
            (ground (arith, more))
    ]

-- A list without repetitions inside another is no longer.
length-distinct :
    (xs ys : List ℕ)
    → ((i : ℕ) → count i xs ≤ 1)
    → ((i : ℕ) → 0 < count i xs → 0 < count i ys)
    → length xs ≤ length ys
length-distinct [] ys once inside = omega arith
length-distinct (x ∷ xs) ys once inside =
    let found : contains x ys ≡ true = ground (arith, inside x, contains_iff_count x ys) in
    let rest =
      length-distinct xs (erase x ys) (λ i. ground (arith, once i))
        (λ i. λ has. ground (arith, has, inside i, once i, count-erase x i ys found)) in
    ground (arith, rest, length-erase x ys found)

-- Each node has been chosen, or is among the draws to come.
abbrev pub AreDrawn : List DataNode → List ℕ → List DataNode → Type 0
AreDrawn nodes draws chosen =
    (i : ℕ) (dn : DataNode)
    → get_elem? nodes i ≡ some dn
    → (contains dn.ident (idents chosen) ≡ true) ⊎ (contains i draws ≡ true)

-- randrange(n) returns a number below n.
abbrev pub AreBelow : ℕ → List ℕ → Type 0
AreBelow n [] = Unit
AreBelow n (draw ∷ draws) = (draw < n) × AreBelow n draws

elem_of_count :
    (nodes : List DataNode) (i : ℕ)
    → 0 < count i (idents nodes)
    → (j : ℕ) × (dn : DataNode) × (get_elem? nodes j ≡ some dn) × (dn.ident ≡ i)
elem_of_count [] i has = absurd (omega (arith, has))
elem_of_count (dn ∷ nodes) i has = elim (Bool-cases (dn.ident == i)) [
  | inl same ↦ (0, dn, refl, (==_iff dn.ident i).0 same)
  | inr other ↦ let (j, d, at, e) = elem_of_count nodes i (rw other at has) in (suc j, d, at, e)
]

pub elem_below :
    (nodes : List DataNode) (i : ℕ)
    → i < length nodes
    → (dn : DataNode) × (get_elem? nodes i ≡ some dn)
elem_below [] i low = absurd (omega (arith, low))
elem_below (dn ∷ nodes) zero low = (dn, refl)
elem_below (dn ∷ nodes) (suc i) low = elem_below nodes i (omega (arith, low))

length-idents : (dns : List DataNode) → length (idents dns) ≡ length dns
length-idents [] = refl
length-idents (dn ∷ dns) = ap suc (length-idents dns)

pub all_chosen :
    (nodes chosen : List DataNode)
    → ((i : ℕ) → count i (idents nodes) ≤ 1)
    → AreDrawn nodes [] chosen
    → length nodes ≤ length chosen
all_chosen nodes chosen once drawn =
    let inside : (i : ℕ) → 0 < count i (idents nodes) → 0 < count i (idents chosen) = λ i has.
      let (j, dn, at, same) = elem_of_count nodes i has in
      elim (drawn j dn at) [
        | inl chosen' ↦ ground (arith, chosen', same, contains_iff_count dn.ident (idents chosen))
        | inr later ↦ absurd (cc)
      ] in
    omega (
      arith,
      length-distinct (idents nodes) (idents chosen) once inside,
      length-idents nodes,
      length-idents chosen,
    )
