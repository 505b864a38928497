-- ===== src/Cli/Omitted.antt =====
-- Which nodes the command's table of a pool shows, and what the line below it counts
-- (cmd/oc-update-status/nodes.go).
use openshift_update_experie.Prelude.{
  ℕ, zero, suc, ◌+◌, ◌≤◌, ◌≡◌, refl, Bool, true, false, not, ◌&&◌, ◌||◌, List, [], ◌∷◌, ◌++◌, map,
  if◌then◌else◌, ltb, lt→ltb, Bool-cases, inl, inr, length, count, select, take, drop, arith,
}
use openshift_update_experie.Cli.Nodes.{NodeDisplayData}
use openshift_update_experie.Cli.NodeTable.{
  Omission, no_omission, node_row, omit_node, add_if, write_rows, is_draining_phase, is_omitted,
  is_paused_phase, is_assessed_progressing,
}

-- Degraded, or unavailable and not being updated.
abbrev pub in_trouble : NodeDisplayData → Bool
in_trouble d = d.is_degraded || (d.is_unavailable && not d.is_updating)

-- The nodes in the table, and those that are only counted.
abbrev pub shown_nodes : Bool → ℕ → List NodeDisplayData → List NodeDisplayData
shown_nodes true max_lines nodes = nodes
shown_nodes false max_lines nodes = take max_lines nodes ++ select in_trouble (drop max_lines nodes)

abbrev pub omitted_nodes : Bool → ℕ → List NodeDisplayData → List NodeDisplayData
omitted_nodes true max_lines nodes = []
omitted_nodes false max_lines nodes = select (λ d. not (in_trouble d)) (drop max_lines nodes)

omit_all : List NodeDisplayData → Omission → Omission
omit_all [] o = o
omit_all (d ∷ ds) o = omit_all ds (omit_node d o)

trouble :
    (degraded unavailable updating : Bool)
    → (true && (not degraded && (not unavailable || updating)))
      ≡ not (degraded || (unavailable && not updating))
trouble true u p = refl
trouble false true true = refl
trouble false true false = refl
trouble false false p = refl

detailed_rows :
    (m i : ℕ) (o : Omission) (ds : List NodeDisplayData)
    → write_rows true m i o ds ≡ (map node_row ds, o)
unfolding write_rows
detailed_rows m i o [] = refl
detailed_rows m i o (d ∷ ds) = rw (detailed_rows m (suc i) o ds) refl

not_below : (i m : ℕ) → m ≤ i → ltb i m ≡ false
not_below i m h = ground arith

past_omitted : (m i : ℕ) (d : NodeDisplayData) → m ≤ i → is_omitted false m i d ≡ not (in_trouble d)
past_omitted m i d h = rw (not_below i m h) (trouble d.is_degraded d.is_unavailable d.is_updating)

past_rows :
    (m i : ℕ) (o : Omission) (ds : List NodeDisplayData)
    → m ≤ i
    → write_rows false m i o ds
      ≡ (map node_row (select in_trouble ds), omit_all (select (λ d. not (in_trouble d)) ds) o)
unfolding write_rows omit_all
past_rows m i o [] h = refl
past_rows m i o (d ∷ ds) h = elim (Bool-cases (in_trouble d)) [
  | inl e ↦ rw (past_omitted m i d h, e, past_rows m (suc i) o ds (omega (arith, h))) refl
  | inr e ↦
      rw (past_omitted m i d h, e, past_rows m (suc i) (omit_node d o) ds (omega (arith, h))) refl
]

-- The first `k` rows, up to the limit, are never left out.
first_rows :
    (m k i : ℕ) (o : Omission) (ds : List NodeDisplayData)
    → m ≡ i + k
    → write_rows false m i o ds
      ≡ (map node_row (shown_nodes false k ds), omit_all (omitted_nodes false k ds) o)
unfolding write_rows omit_all
first_rows m zero i o ds h = past_rows m i o ds (omega (arith, h))
first_rows m (suc k) i o [] h = refl
first_rows m (suc k) i o (d ∷ ds) h =
    rw (lt→ltb i m (omega (arith, h)), first_rows m k (suc i) o ds (omega (arith, h))) refl

-- A counter of a test, by one more node.
bump : (b : Bool) (r n c : ℕ) → r ≡ n + add_if b c → r ≡ (if b then suc n else n) + c
bump true r n c h = omega (arith, h)
bump false r n c h = h

counted :
    (ds : List NodeDisplayData) (o : Omission)
    → let r = omit_all ds o in
      (r.total ≡ length ds + o.total)
      × (r.completed ≡ count (λ d. d.is_updated) ds + o.completed)
      × (r.outdated ≡ count (λ d. not d.is_updated) ds + o.outdated)
      × (r.available ≡ count (λ d. not d.is_unavailable) ds + o.available)
      × (r.draining ≡ count (λ d. is_draining_phase d.phase) ds + o.draining)
      × (r.excluded ≡ count (λ d. is_paused_phase d.phase) ds + o.excluded)
      × (r.progressing ≡ count (λ d. is_assessed_progressing d.assessment) ds + o.progressing)
unfolding omit_all
counted [] o =
    (omega arith, omega arith, omega arith, omega arith, omega arith, omega arith, omega arith)
counted (d ∷ ds) o =
    let (total, completed, outdated, available, draining, excluded, progressing) =
      counted ds (omit_node d o) in
    (
      omega (arith, total),
      bump d.is_updated _ _ _ completed,
      bump (not d.is_updated) _ _ _ outdated,
      bump (not d.is_unavailable) _ _ _ available,
      bump (is_draining_phase d.phase) _ _ _ draining,
      bump (is_paused_phase d.phase) _ _ _ excluded,
      bump (is_assessed_progressing d.assessment) _ _ _ progressing,
    )

rows_split :
    (detailed : Bool) (m : ℕ) (nodes : List NodeDisplayData)
    → write_rows detailed m 0 no_omission nodes ≡ (
      map node_row (shown_nodes detailed m nodes),
      omit_all (omitted_nodes detailed m nodes) no_omission,
    )
unfolding omit_all
rows_split true m nodes = detailed_rows m 0 no_omission nodes
rows_split false m nodes = first_rows m m 0 no_omission nodes (omega arith)

none_troubled :
    (ds : List NodeDisplayData) → count in_trouble (select (λ d. not (in_trouble d)) ds) ≡ 0
none_troubled [] = refl
none_troubled (d ∷ ds) = elim (Bool-cases (in_trouble d)) [
  | inl e ↦ rw e (none_troubled ds)
  | inr e ↦ rw (e, e) (none_troubled ds)
]

halves_completed :
    (ds : List NodeDisplayData)
    → count (λ d. d.is_updated) ds + count (λ d. not d.is_updated) ds ≡ length ds
halves_completed [] = refl
halves_completed (d ∷ ds) = ground (arith, halves_completed ds)

selected_halves :
    (ds : List NodeDisplayData)
    → length (map node_row (select in_trouble ds)) + length (select (λ d. not (in_trouble d)) ds)
      ≡ length ds
selected_halves [] = refl
selected_halves (d ∷ ds) = elim (Bool-cases (in_trouble d)) [
  | inl e ↦ rw e (omega (arith, selected_halves ds))
  | inr e ↦ rw e (omega (arith, selected_halves ds))
]

all_accounted :
    (m : ℕ) (ds : List NodeDisplayData)
    → length (map node_row (shown_nodes false m ds)) + length (omitted_nodes false m ds) ≡ length ds
all_accounted zero ds = selected_halves ds
all_accounted (suc m) [] = refl
all_accounted (suc m) (d ∷ ds) = omega (arith, all_accounted m ds)

all_rows : (ds : List NodeDisplayData) → length (map node_row ds) ≡ length ds
all_rows [] = refl
all_rows (d ∷ ds) = omega (arith, all_rows ds)

accounted :
    (detailed : Bool) (m : ℕ) (ds : List NodeDisplayData)
    → length (map node_row (shown_nodes detailed m ds)) + length (omitted_nodes detailed m ds)
      ≡ length ds
accounted true m ds = omega (arith, all_rows ds)
accounted false m ds = all_accounted m ds

untroubled :
    (detailed : Bool) (m : ℕ) (ds : List NodeDisplayData)
    → count in_trouble (omitted_nodes detailed m ds) ≡ 0
untroubled true m ds = refl
untroubled false m ds = none_troubled (drop m ds)

-- In detail, the table has a row for every node. Otherwise it has the first rows up to the limit, and
-- after them the nodes that are degraded, or unavailable and not being updated, in their order. Every
-- other node is counted once, so that rows and total add up to the nodes. None of the nodes that are
-- counted is degraded, or unavailable without being updated; each counter is the number of those nodes
-- that pass its test: completed is the updated ones and outdated the others, which are all of them.
pub write_rows_lem :
    (detailed : Bool) (max_lines : ℕ) (nodes : List NodeDisplayData)
    → let (rows, o) = write_rows detailed max_lines 0 no_omission nodes in
      let omitted = omitted_nodes detailed max_lines nodes in
      (rows ≡ map node_row (shown_nodes detailed max_lines nodes))
      × (length rows + o.total ≡ length nodes)
      × (o.total ≡ length omitted)
      × (o.completed ≡ count (λ d. d.is_updated) omitted)
      × (o.outdated ≡ count (λ d. not d.is_updated) omitted)
      × (o.completed + o.outdated ≡ o.total)
      × (o.available ≡ count (λ d. not d.is_unavailable) omitted)
      × (o.draining ≡ count (λ d. is_draining_phase d.phase) omitted)
      × (o.excluded ≡ count (λ d. is_paused_phase d.phase) omitted)
      × (o.progressing ≡ count (λ d. is_assessed_progressing d.assessment) omitted)
      × (count in_trouble omitted ≡ 0)
write_rows_lem detailed m nodes =
    let omitted = omitted_nodes detailed m nodes in
    let (total, completed, outdated, available, draining, excluded, progressing) =
      counted omitted no_omission in
    rw (rows_split detailed m nodes) (
      refl,
      omega (arith, accounted detailed m nodes, total),
      omega (arith, total),
      omega (arith, completed),
      omega (arith, outdated),
      omega (arith, completed, outdated, total, halves_completed omitted),
      omega (arith, available),
      omega (arith, draining),
      omega (arith, excluded),
      omega (arith, progressing),
      untroubled detailed m nodes,
    )
