-- ===== src/Tests/Filters.antt =====
-- Del of subMap at concrete filters.
use mqttie.Prelude.{◌≡◌, refl, [], ◌∷◌}
use mqttie.Client.SubMap.{empty, add, del}
use mqttie.Client.SubMap.Removal.{del-other_filter}

-- The filters `a/+/x` and `a/+/y`.
del-other_filter_example :
    del
      (b'a' ∷ b'/' ∷ b'+' ∷ b'/' ∷ b'y' ∷ [])
      (add (b'a' ∷ b'/' ∷ b'+' ∷ b'/' ∷ b'x' ∷ []) 3 empty)
    ≡ empty
del-other_filter_example =
    del-other_filter (b'a' ∷ b'/' ∷ []) (b'/' ∷ b'x' ∷ []) (b'/' ∷ b'y' ∷ []) 3 (refl, (refl, tt))
      (refl, (refl, tt)) (refl, (refl, tt))
