-- ===== src/Prelude/Perms.antt =====
-- What a list keeps when it is put in another order.
use mathlib.Core.List.{List, Permᴰ, Memᴰ}
use mathlib.Core.Path.{◌≡◌, refl, ap, ◌∙◌}
use Prim.Native.Nat.{suc}
use nestjs_team_tasks_api.Prelude.Lists.{length}

module _ {ℓ} {A : Type ℓ} where
  pub length-Permᴰ : {xs ys : List A} → Permᴰ xs ys → length xs ≡ length ys
  length-Permᴰ Permᴰ.nil = refl
  length-Permᴰ (Permᴰ.cons e p) = ap suc (length-Permᴰ p)
  length-Permᴰ (Permᴰ.swap e e') = refl
  length-Permᴰ (Permᴰ.trans p q) = length-Permᴰ p ∙ length-Permᴰ q

  pub mem-Permᴰ : {xs ys : List A} {x : A} → Permᴰ xs ys → Memᴰ x xs → Memᴰ x ys
  mem-Permᴰ Permᴰ.nil m = elim m [ ]
  mem-Permᴰ (Permᴰ.cons e p) (Memᴰ.head h) = Memᴰ.head (h ∙ e)
  mem-Permᴰ (Permᴰ.cons e p) (Memᴰ.tail m) = Memᴰ.tail (mem-Permᴰ p m)
  mem-Permᴰ (Permᴰ.swap e e') (Memᴰ.head h) = Memᴰ.tail (Memᴰ.head (h ∙ e))
  mem-Permᴰ (Permᴰ.swap e e') (Memᴰ.tail (Memᴰ.head h)) = Memᴰ.head (h ∙ e')
  mem-Permᴰ (Permᴰ.swap e e') (Memᴰ.tail (Memᴰ.tail m)) = Memᴰ.tail (Memᴰ.tail m)
  mem-Permᴰ (Permᴰ.trans p q) m = mem-Permᴰ q (mem-Permᴰ p m)
