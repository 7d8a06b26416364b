-- ===== src/Common/Text/Order.antt =====
-- `Ord for str`: lexicographic by bytes of UTF-8, which is lexicographic by code points.
use mathlib.Core.List.{[], ◌∷◌}
use Prim.Native.Nat.{compare, Ordering}
use install_scope.Common.Text.Scan.{Text}

unfoldable pub text_cmp : Text → Text → Ordering
text_cmp [] [] = Ordering.eq
text_cmp [] (b ∷ t) = Ordering.lt
text_cmp (a ∷ s) [] = Ordering.gt
text_cmp (a ∷ s) (b ∷ t) =
    let rest = text_cmp s t in
    elim (compare a b) [
      | Ordering.lt ↦ Ordering.lt
      | Ordering.eq ↦ rest
      | Ordering.gt ↦ Ordering.gt
    ]
