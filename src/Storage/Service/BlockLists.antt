-- ===== src/Storage/Service/BlockLists.antt =====
-- The block list that `prepareBlockListRequest` of storage/util.go writes, as a document.
use azure_sdk_for_go.Common.{
  ℕ, ◌+◌, ◌/◌, ◌%◌, ◌*◌, List, [], ◌∷◌, ◌++◌, ◌≡◌, ◌≢◌, refl, sym, subst, ◌∙◌, arith, append_assoc,
}
use azure_sdk_for_go.Common.Base64.{base64_digit, base64_encode}
use azure_sdk_for_go.Common.Text.{Text, codes}
use azure_sdk_for_go.Storage.Block.{padded, block_id, prepare_block_list_request, block_list_items}
use azure_sdk_for_go.Storage.Block.Upload.Content.{numbered}
use azure_sdk_for_go.Storage.Service.{IsPlain, Items, closing, item, BlockListXml, document}

plain_digit : (n : ℕ) → (base64_digit n ≢ b'<') × (base64_digit n ≢ b'&')
plain_digit n = (λ e. ground arith, λ e. ground arith)

plain_equals : (◌≢◌ {A = ℕ} b'=' b'<') × (◌≢◌ {A = ℕ} b'=' b'&')
plain_equals = (λ e. omega arith, λ e. omega arith)

base64_encode-IsPlain : (s : Text) → IsPlain (base64_encode s)
unfolding base64_encode
base64_encode-IsPlain [] = tt
base64_encode-IsPlain (a ∷ []) =
    (plain_digit (a / 4), (plain_digit (a % 4 * 16), (plain_equals, (plain_equals, tt))))
base64_encode-IsPlain (a ∷ b ∷ []) = (
  plain_digit (a / 4),
  (plain_digit (a % 4 * 16 + b / 16), (plain_digit (b % 16 * 4), (plain_equals, tt))),
)
base64_encode-IsPlain (a ∷ b ∷ c ∷ rest) = (
  plain_digit (a / 4),
  (
    plain_digit (a % 4 * 16 + b / 16),
    (plain_digit (b % 16 * 4 + c / 64), (plain_digit (c % 64), base64_encode-IsPlain rest)),
  ),
)

block_id-IsPlain : (n : ℕ) → IsPlain (block_id n)
unfolding block_id
block_id-IsPlain n = base64_encode-IsPlain (padded n)

assoc_three : (a b c d : Text) → ((a ++ b) ++ c) ++ d ≡ a ++ (b ++ (c ++ d))
assoc_three a b c d = append_assoc (a ++ b) c d ∙ append_assoc a b (c ++ d)

numbered-Items :
    (n : ℕ) (chunks : List Text)
    → Items (block_list_items (numbered n chunks) ++ codes "</BlockList>") (numbered n chunks)
unfolding block_list_items
numbered-Items n [] = closing
numbered-Items n (x ∷ chunks) =
    subst (λ t. Items (codes "<Latest>" ++ t) (numbered n (x ∷ chunks)))
      (sym (
        assoc_three (block_id n) (codes "</Latest>") (block_list_items (numbered (n + 1) chunks))
          (codes "</BlockList>")))
      (item (block_id-IsPlain n) (numbered-Items (n + 1) chunks))

-- The request for the blocks of an upload is a block list that names them, in order.
pub prepare_block_list_request-BlockListXml :
    (n : ℕ) (chunks : List Text)
    → BlockListXml (prepare_block_list_request (numbered n chunks)) (numbered n chunks)
unfolding prepare_block_list_request
prepare_block_list_request-BlockListXml n chunks = document refl (numbered-Items n chunks)
