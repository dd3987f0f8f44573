-- ===== src/Nodes/NodeSubset.antt =====
-- src/nodes.rs, `NodeSubset`: a bit for each node of the committee.
use aleph_bft.Prelude.{
  ℕ, suc, ◌≡◌, refl, Bool, true, false, List, [], ◌∷◌, map, Exec, ap, index, store_at, length,
  replicate, count, none, some,
}
use aleph_bft.Nodes.NodeMap
use aleph_bft.Nodes.NodeMap.{NodeMap, is_some}

abbrev pub NodeSubset : Type 0
NodeSubset = List Bool

unfoldable pub with_size : ℕ → NodeSubset
with_size capacity = replicate capacity false

-- Out of range the code panics.
unfoldable pub insert : NodeSubset → ℕ → Exec NodeSubset
insert s i = store_at s i true

unfoldable pub size : NodeSubset → ℕ
size s = length s

unfoldable pub elements_from : ℕ → NodeSubset → List ℕ
elements_from i [] = []
elements_from i (true ∷ s) = i ∷ elements_from (suc i) s
elements_from i (false ∷ s) = elements_from (suc i) s

-- The indices of the bits that are set, in order.
unfoldable pub elements : NodeSubset → List ℕ
unfolding elements_from
elements s = elements_from 0 s

unfoldable pub contains : NodeSubset → ℕ → Exec Bool
contains s i = index s i

length-elements_from :
    {T : Type 0} (i : ℕ) (m : NodeMap T)
    → length (elements_from i (map is_some m)) ≡ count is_some m
unfolding elements_from
length-elements_from i [] = refl
length-elements_from i (none ∷ m) = length-elements_from (suc i) m
length-elements_from i (some v ∷ m) = ap suc (length-elements_from (suc i) m)

pub length-elements-to_subset :
    {T : Type 0} (m : NodeMap T) → length (elements (NodeMap.to_subset m)) ≡ count is_some m
unfolding elements NodeMap.to_subset
length-elements-to_subset m = length-elements_from 0 m

pub size-to_subset : {T : Type 0} (m : NodeMap T) → size (NodeMap.to_subset m) ≡ length m
unfolding size NodeMap.to_subset
size-to_subset [] = refl
size-to_subset (x ∷ m) = ap suc (size-to_subset m)
