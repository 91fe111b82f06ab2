-- ===== src/Examples/Names.antt =====
-- Names, labels and IDs.
use gombit_forge.Prelude.{
  ℕ, ◌≡◌, refl, Bool, true, false, not, ◌&&◌, some, [], ◌∷◌, any, is_some, text_beq, codes,
}
use gombit_forge.Names.{is_go_keyword, is_exported_go_ident, is_storage_name, is_decimal_literal}
use gombit_forge.Names.Ident.{exported_shape, is_exported_go_ident_shape}
use gombit_forge.Names.Literal.{decimal_parts, unsigned, is_decimal_literal-eq-parts}
use gombit_forge.Names.Storage.{
  split, is_nonempty, separated_words, is_storage_name-eq-separated_words,
}
use gombit_forge.Normalize.{is_alnum, fold_label, dropped_letter, normalize}
use gombit_forge.Normalize.Totality.{pascal_shape, is_some-normalize}
use gombit_forge.Normalize.Fixpoint.{normalize-pascal_shape, normalize-normalize}
use gombit_forge.StableId.{StableId, kind_resource, kind_of, is_valid, new_id_at}
use gombit_forge.StableId.Minted.{new_id_at-is_valid}

is_exported_go_ident_shape_example :
    is_exported_go_ident (codes "Order_2") ≡ exported_shape (codes "Order_2")
is_exported_go_ident_shape_example = is_exported_go_ident_shape (codes "Order_2")

is_storage_name-eq-separated_words_example :
    is_storage_name (codes "order_lines") ≡ separated_words b'_' (codes "order_lines")
is_storage_name-eq-separated_words_example =
    is_storage_name-eq-separated_words (codes "order_lines")

is_decimal_literal-eq-parts_example : is_decimal_literal (codes "-12.50") ≡ (
    decimal_parts (split b'.' (unsigned (codes "-12.50"))) 1
    && any is_nonempty (split b'.' (unsigned (codes "-12.50"))))
is_decimal_literal-eq-parts_example = is_decimal_literal-eq-parts (codes "-12.50")

-- No character beyond ASCII is a letter.
abbrev no_letter : ℕ → Bool
no_letter c = false

is_some-normalize_example : is_some (normalize no_letter (codes "order line")) ≡ (
    not (dropped_letter no_letter (codes "order line"))
    && any is_alnum (fold_label (codes "order line")))
is_some-normalize_example = is_some-normalize no_letter (codes "order line")

order_line : normalize no_letter (codes "order line") ≡ some (codes "OrderLine")
unfolding normalize text_beq is_go_keyword
order_line = refl

normalize-pascal_shape_example : pascal_shape (codes "OrderLine") ≡ true
normalize-pascal_shape_example =
    normalize-pascal_shape no_letter (codes "order line") (codes "OrderLine") order_line

normalize-normalize_example : normalize no_letter (codes "OrderLine") ≡ some (codes "OrderLine")
normalize-normalize_example =
    normalize-normalize no_letter (codes "order line") (codes "OrderLine") order_line

abbrev order_id : StableId
order_id = codes "res_00000000000000000000000000"

order_id_made :
    new_id_at kind_resource 0 (some (0 ∷ 0 ∷ 0 ∷ 0 ∷ 0 ∷ 0 ∷ 0 ∷ 0 ∷ 0 ∷ 0 ∷ [])) ≡ some order_id
unfolding new_id_at text_beq
order_id_made = refl

new_id_at-is_valid_example :
    (is_valid order_id kind_resource ≡ true) × (kind_of order_id ≡ kind_resource)
new_id_at-is_valid_example =
    new_id_at-is_valid kind_resource 0 (0 ∷ 0 ∷ 0 ∷ 0 ∷ 0 ∷ 0 ∷ 0 ∷ 0 ∷ 0 ∷ 0 ∷ []) order_id refl
      refl order_id_made
