-- ===== src/Storage/Block/Upload/Content.antt =====
-- The block list that `putBlockBlob` of storage/blob.go commits, and the service's side of it.
use azure_sdk_for_go.Common.{
  ℕ, ◌+◌, ◌≤◌, ◌<◌, ◌^◌, List, [], ◌∷◌, ◌++◌, Option, some, none, if◌then◌else◌, ◌≡◌, refl, ◌∙◌,
  arith, length,
}
use azure_sdk_for_go.Common.Text.{Text, eq, eq_iff, eq_refl}
use azure_sdk_for_go.Go.{lookup, insert, lookup-insert}
use azure_sdk_for_go.Storage.Block.{Block, block_id}
use azure_sdk_for_go.Storage.Block.Ids.{block_id-injective}
use azure_sdk_for_go.Storage.Block.Upload.{latest_block}

-- The block list for chunks numbered from `n` on.
abbrev pub numbered : ℕ → List Text → List Block
numbered n [] = []
numbered n (x ∷ xs) = latest_block (block_id n) ∷ numbered (n + 1) xs

-- The bytes of the chunks, in order.
abbrev pub joined : List Text → Text
joined [] = []
joined (x ∷ xs) = x ++ joined xs

-- What the service keeps of uncommitted blocks: the last upload for each id.
abbrev pub Staged : Type 0
Staged = List (Text × Text)

-- The documented effect of Put Block, for each chunk in order.
abbrev pub stage_all : ℕ → List Text → Staged → Staged
stage_all n [] staged = staged
stage_all n (x ∷ xs) staged = stage_all (n + 1) xs (insert (block_id n) x staged)

-- The documented effect of Put Block List with the status "Latest": the named blocks, in the order of
-- the list; an id that names no block is refused.
abbrev pub committed : List Block → Staged → Option Text
committed [] staged = some []
committed (b ∷ bs) staged = elim (lookup b.id staged) [
  | none ↦ none
  | some x ↦ elim (committed bs staged) [ none ↦ none | some rest ↦ some (x ++ rest) ]
]

-- A block stays as it is while blocks with greater numbers are staged.
lookup-stage_all :
    (i n : ℕ) (xs : List Text) (staged : Staged)
    → i < n
    → n + length xs ≤ 10 ^ 11
    → lookup (block_id i) (stage_all n xs staged) ≡ lookup (block_id i) staged
lookup-stage_all i n [] staged p q = refl
lookup-stage_all i n (x ∷ xs) staged p q =
    lookup-stage_all i (n + 1) xs (insert (block_id n) x staged) (omega arith) (omega arith)
    ∙ lookup-insert (block_id n) (block_id i) x staged
    ∙ other
  where
    other :
        (if eq (block_id n) (block_id i) then some x else lookup (block_id i) staged)
        ≡ lookup (block_id i) staged
    other = ground (
      arith,
      eq_iff (block_id n) (block_id i),
      block_id-injective n i (omega arith) (omega arith),
    )

committed-stage_all :
    (n : ℕ) (xs : List Text) (staged : Staged)
    → n + length xs ≤ 10 ^ 11
    → committed (numbered n xs) (stage_all n xs staged) ≡ some (joined xs)
committed-stage_all n [] staged q = refl
committed-stage_all n (x ∷ xs) staged q =
    ground
      (arith, found, committed-stage_all (n + 1) xs (insert (block_id n) x staged) (omega arith))
  where
    found : lookup (block_id n) (stage_all (n + 1) xs (insert (block_id n) x staged)) ≡ some x
    found =
        lookup-stage_all n (n + 1) xs (insert (block_id n) x staged) (omega arith) (omega arith)
        ∙ lookup-insert (block_id n) (block_id n) x staged
        ∙ rw eq_refl

-- Whatever blocks the service holds already: if the chunks are staged under the ids that
-- `putBlockBlob` gives them, at most 10^11 of them, and then its block list is committed, the blob is
-- the chunks in order.
pub block_list-content :
    (chunks : List Text) (staged : Staged)
    → length chunks ≤ 10 ^ 11
    → committed (numbered 0 chunks) (stage_all 0 chunks staged) ≡ some (joined chunks)
block_list-content chunks staged q = committed-stage_all 0 chunks staged (omega arith)
