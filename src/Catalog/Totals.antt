-- ===== src/Catalog/Totals.antt =====
-- Laws of the replica count over the node catalog.
use Prim.Native.Nat.{ℕ, ◌+◌, ◌%◌, ◌<◌}
use faasd.Prelude.{
  String, ◌≡◌, ◌∙◌, Option, none, some, [], ◌∷◌, inl, inr, arith, Map, lookup, insert, get_or,
  String-cases,
}
use faasd.Catalog.Types.{word, Node}
use faasd.Catalog.Cluster.{count_replicas, sum_replicas}

-- What a node adds to the count of a function.
abbrev pub share : String → Node → ℕ
share f node = get_or 0 (lookup f node.available_functions_replicas)

-- The count without the wrap-around.
unfoldable pub plain_sum : String → Map Node → ℕ
plain_sum f [] = 0
plain_sum f ((key, node) ∷ nodes) = share f node + plain_sum f nodes

abbrev SameAt : String → Node → Node → Type 0
SameAt f a b = lookup f a.available_functions_replicas ≡ lookup f b.available_functions_replicas

pub sum_replicas-insert :
    (f : String) (key : String) (node node' : Node) (nodes : Map Node) (acc : ℕ)
    → lookup key nodes ≡ some node
    → lookup f node'.available_functions_replicas ≡ lookup f node.available_functions_replicas
    → sum_replicas f (insert key node' nodes) acc ≡ sum_replicas f nodes acc
unfolding sum_replicas lookup insert
sum_replicas-insert f key node node' [] acc found same = cc
sum_replicas-insert f key node node' ((k, n) ∷ nodes) acc found same = elim (String-cases k key) [
  | inl (e, test) ↦ let here : some n ≡ some node = rw test at found in rw test (ground arith)
  | inr (e, test) ↦ rw test (
      sum_replicas-insert f key node node' nodes
        (count_replicas acc (lookup f n.available_functions_replicas)) (rw test at found) same)
]

count_replicas-lt : (acc : ℕ) (o : Option ℕ) → acc < word → count_replicas acc o < word
count_replicas-lt acc none h = h
count_replicas-lt acc (some cnt) h = omega arith

count_replicas-mod :
    (acc : ℕ) (o : Option ℕ) (rest : ℕ)
    → (count_replicas acc o + rest) % word ≡ (acc + (get_or 0 o + rest)) % word
count_replicas-mod acc none rest = omega arith
count_replicas-mod acc (some cnt) rest = omega arith

-- From a count below 2^64 the loop computes the sum of the replicas of the nodes modulo 2^64.
pub sum_replicas-mod :
    (f : String) (nodes : Map Node) (acc : ℕ)
    → acc < word
    → sum_replicas f nodes acc ≡ (acc + plain_sum f nodes) % word
unfolding sum_replicas plain_sum
sum_replicas-mod f [] acc h = omega arith
sum_replicas-mod f ((k, n) ∷ nodes) acc h =
    let o = lookup f n.available_functions_replicas in
    sum_replicas-mod f nodes (count_replicas acc o) (count_replicas-lt acc o h)
    ∙ count_replicas-mod acc o (plain_sum f nodes)
