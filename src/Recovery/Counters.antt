-- ===== src/Recovery/Counters.antt =====
-- Multisets of texts (desired_plan_rollback.go): a counter is the list of its keys, each as often as it
-- was counted.
use podlaz.Common.{
  ℕ, suc, Bool, true, false, ◌&&◌, ◌||◌, ◌==◌, leb, List, [], ◌∷◌, Str, str_eq, elem, all, length,
  is_empty, trim_space, if◌then◌else◌,
}

abbrev pub Counter : Type 0
Counter = List Str

unfoldable pub count : Str → Counter → ℕ
count k [] = 0
count k (x ∷ xs) = let n = count k xs in if str_eq k x then suc n else n

-- The keys of the map, each once.
unfoldable pub keys : Counter → List Str
keys [] = []
keys (x ∷ xs) = let ks = keys xs in if elem x ks then ks else x ∷ ks

-- `len` of the map.
unfoldable pub size : Counter → ℕ
unfolding keys
size c = length (keys c)

-- `stringCounterEqual`: a loop over the keys of the left one.
unfoldable pub counter_equal : Counter → Counter → Bool
unfolding count keys
counter_equal l r = size l == size r && all (λ k. count k r == count k l) (keys l)

-- `stringCounterSubset`.
unfoldable pub counter_subset : Counter → Counter → Bool
unfolding count keys
counter_subset l r = all (λ k. leb (count k l) (count k r)) (keys l)

-- `compactReasonStrings`.
compact_from : List Str → List Str → List Str
compact_from seen [] = []
compact_from seen (v ∷ vs) = elim (is_empty (trim_space v) || elem (trim_space v) seen) [
  | true ↦ compact_from seen vs
  | false ↦ trim_space v ∷ compact_from (trim_space v ∷ seen) vs
]

unfoldable pub compact_reasons : List Str → List Str
unfolding compact_from trim_space
compact_reasons vs = compact_from [] vs
