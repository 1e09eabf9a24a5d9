-- ===== src/Merkle/Tests.antt =====
-- The Merkle root at concrete leaves, over the hash of the samples.
use th_layer_agent.Common.{
  ◌≡◌, refl, String, str_append, List, [], ◌∷◌, none, some, arith, length, ◌⊎◌,
}
use th_layer_agent.Merkle.{Bytes, strip_all, merkle_root, hash_pair, reduce, root_text}
use th_layer_agent.Merkle.Sample.{toy, toy_text, toy-IsHashing}
use th_layer_agent.Merkle.Levels.{length-reduce}
use th_layer_agent.Merkle.Tree.{tree_root, merkle_root-eq-tree_root}
use th_layer_agent.Merkle.Binding.{Collision, merkle_root-binding}

abbrev ones : Bytes
ones =
    1 ∷ 0 ∷ 0 ∷ 0 ∷ 0 ∷ 0 ∷ 0 ∷ 0 ∷ 0 ∷ 0 ∷ 0 ∷ 0 ∷ 0 ∷ 0 ∷ 0 ∷ 0 ∷ 0 ∷ 0 ∷ 0 ∷ 0 ∷ 0 ∷ 0 ∷ 0 ∷ 0
    ∷ 0 ∷ 0 ∷ 0 ∷ 0 ∷ 0 ∷ 0 ∷ 0 ∷ 0 ∷ []

abbrev twos : Bytes
twos =
    2 ∷ 0 ∷ 0 ∷ 0 ∷ 0 ∷ 0 ∷ 0 ∷ 0 ∷ 0 ∷ 0 ∷ 0 ∷ 0 ∷ 0 ∷ 0 ∷ 0 ∷ 0 ∷ 0 ∷ 0 ∷ 0 ∷ 0 ∷ 0 ∷ 0 ∷ 0 ∷ 0
    ∷ 0 ∷ 0 ∷ 0 ∷ 0 ∷ 0 ∷ 0 ∷ 0 ∷ 0 ∷ []

abbrev leaf_of : Bytes → String
leaf_of b = str_append "sha256:" (toy_text b)

abbrev three : List String
three = leaf_of ones ∷ leaf_of twos ∷ leaf_of ones ∷ []

abbrev three_bytes : List Bytes
three_bytes = ones ∷ twos ∷ ones ∷ []

strip_all-three : strip_all toy three ≡ some three_bytes
unfolding strip_all
strip_all-three = refl

-- an odd level repeats its last node
merkle_root-three :
    merkle_root toy three
    ≡ some (root_text toy (hash_pair toy (hash_pair toy ones twos) (hash_pair toy ones ones) ∷ []))
unfolding merkle_root
merkle_root-three = refl

merkle_root-malformed : merkle_root toy (leaf_of ones ∷ "md5:ab" ∷ []) ≡ none
unfolding merkle_root
merkle_root-malformed = refl

length-reduce_example : length (reduce toy 3 three_bytes) ≡ 1
length-reduce_example = length-reduce toy 3 three_bytes (omega arith) (omega arith)

merkle_root-eq-tree_root_example :
    merkle_root toy three ≡ some (root_text toy (tree_root toy 2 three_bytes ∷ []))
merkle_root-eq-tree_root_example =
    merkle_root-eq-tree_root toy 2 three three_bytes strip_all-three (omega arith) (omega arith)

merkle_root-binding_example : ◌≡◌ {A = List Bytes} three_bytes three_bytes ⊎ Collision toy
merkle_root-binding_example =
    merkle_root-binding toy toy-IsHashing three three three_bytes three_bytes strip_all-three
      strip_all-three (refl, (refl, (refl, tt))) (refl, (refl, (refl, tt))) refl refl
