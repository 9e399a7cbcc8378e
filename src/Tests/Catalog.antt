-- ===== src/Tests/Catalog.antt =====
-- Answers of the outside catalog at concrete responses.
use family_inventory.Prelude.{◌≡◌, refl, true, String, none, some, []}
use family_inventory.Notifications.Result.{ok, err}
use family_inventory.Homes.Members.{raise}
use family_inventory.Products.{external, lookup, get_by_barcode}
use family_inventory.Products.Catalog.{
  Json, Fields, number, string, array, object, end, field, Response, responded, ProductCandidate,
  extract_front_image_url, model_validate, is_untrustworthy, candidate, read_body,
  lookup_by_barcode, unavailable, validation_error,
}
use family_inventory.Products.Catalog.Justified.{IsJustified, lookup-IsJustified}

abbrev images : Json → Fields
images small =
    field "front"
      (object (
        field "fr" (object (field "400" (string "fr.jpg") end))
          (field "best" (object (field "400" (string "") (field "200" small end))) end)))
      end

abbrev body : Json → Json → Json
body status small = object (
    field "status" status (
      field "product"
        (object (
          field "product_name" (string "Milk")
            (field "selected_images" (object (images small)) end)))
        end))

abbrev milk : ProductCandidate
milk = record {
  barcode = "4001";
  name = "Milk";
  brand = none;
  external_category = none;
  image_url = some "best.jpg";
  source = "openfoodfacts";
}

abbrev answered : Json → Json → Response
answered status small = responded 200 (some (body status small))

abbrev ask : String → Response
ask b = answered (string "success") (string "best.jpg")

found : lookup_by_barcode (answered (string "success") (string "best.jpg")) "4001" ≡ ok (some milk)
unfolding lookup_by_barcode read_body is_untrustworthy model_validate candidate
    extract_front_image_url
found = refl

-- A 200 that reports a failure is not trusted.
failure_reported :
    lookup_by_barcode (answered (string "failure") (string "best.jpg")) "4001" ≡ err unavailable
unfolding lookup_by_barcode read_body is_untrustworthy
failure_reported = refl

-- A status that is an array is looked up in a set, which raises another error.
unhashable_status :
    lookup_by_barcode (answered (array true) (string "best.jpg")) "4001"
    ≡ err (raise "TypeError" "unhashable type: 'list'")
unfolding lookup_by_barcode read_body is_untrustworthy
unhashable_status = refl

-- The lookup of a barcode lets that error through.
unhashable_status_escapes :
    lookup ProductCandidate
      (some (lookup_by_barcode (answered (array true) (string "best.jpg"))))
      "4001"
      []
    ≡ err (raise "TypeError" "unhashable type: 'list'")
unfolding lookup get_by_barcode lookup_by_barcode read_body is_untrustworthy
unhashable_status_escapes = refl

-- An image that is no text is refused by the candidate, outside the except clause.
numeric_image :
    lookup_by_barcode (answered (string "success") (number true)) "4001" ≡ err validation_error
unfolding lookup_by_barcode read_body is_untrustworthy model_validate candidate
    extract_front_image_url
numeric_image = refl

no_product : lookup_by_barcode (responded 404 none) "4001" ≡ ok none
unfolding lookup_by_barcode
no_product = refl

looked_up :
    lookup ProductCandidate (some (λ b. lookup_by_barcode (ask b) b)) "4001" [] ≡ ok (external milk)
unfolding lookup get_by_barcode lookup_by_barcode read_body is_untrustworthy model_validate
    candidate extract_front_image_url
looked_up = refl

lookup-IsJustified_example : IsJustified (ask "4001") "4001" [] (external milk)
lookup-IsJustified_example = lookup-IsJustified ask "4001" [] (external milk) looked_up
