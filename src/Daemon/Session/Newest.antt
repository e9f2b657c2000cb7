-- ===== src/Daemon/Session/Newest.antt =====
-- The newest of several times does not depend on their order.
use mathlib.Core.List.{Permᴰ}
use clipse.Prelude.{◌≡◌, refl, ap, ◌∙◌, List, [], ◌∷◌, arith, if◌then◌else◌}
use clipse.Core.Hlc.{Hlc, later}
use clipse.Core.Hlc.Order.{later_trans, later_asymm, later_total}
use clipse.Core.Clip.{Clip}

-- The later of two times.
unfoldable pub newer : Hlc → Hlc → Hlc
newer a b = if later b a then b else a

newer_comm : (m a b : Hlc) → newer (newer m a) b ≡ newer (newer m b) a
unfolding newer
newer_comm m a b =
    ground (
      arith,
      later_asymm a b,
      later_total a b,
      later_asymm b a,
      later_trans a b m,
      later_trans b a m,
    )

-- The latest of a time and those of clips.
unfoldable pub newest : Hlc → List Clip → Hlc
unfolding newer
newest m [] = m
newest m (c ∷ cs) = newest (newer m c.hlc) cs

pub newest-perm : (m : Hlc) {xs ys : List Clip} → Permᴰ xs ys → newest m xs ≡ newest m ys
unfolding newest
newest-perm m Permᴰ.nil = refl
newest-perm m (Permᴰ.cons {a = a} {b = b} {l₂ = l₂} e p) =
    newest-perm (newer m a.hlc) p ∙ ap (λ (c : Clip). newest (newer m c.hlc) l₂) e
newest-perm m (Permᴰ.swap {a = a} {b = b} {a' = a'} {b' = b'} {l = l} e f) =
    ap (λ h. newest h l) (newer_comm m a.hlc b.hlc)
    ∙ ap (λ (c : Clip). newest (newer (newer m c.hlc) a.hlc) l) f
    ∙ ap (λ (c : Clip). newest (newer (newer m a'.hlc) c.hlc) l) e
newest-perm m (Permᴰ.trans p q) = newest-perm m p ∙ newest-perm m q
