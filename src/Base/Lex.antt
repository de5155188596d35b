-- ===== src/Base/Lex.antt =====
-- An order by a key, and by a rank among equal keys.
use Prim.Native.Nat.{ℕ}
use mathlib.Core.Path.{◌≡◌}
use mathlib.Core.Bool.{Bool, true, false}
use native.Mathlib.Omega.{arith}
use go_rocketmq_dashboard.Base.Equality.{if◌then◌else◌, ltb, Eq, ◌==◌}
use go_rocketmq_dashboard.Base.Sort.{IsWeakOrder}

module _ {ℓ κ} {A : Type ℓ} {K : Type κ} ⦃e : Eq K⦄ (key : A → K) (rank : A → ℕ)
    (less : K → K → Bool) where
  unfoldable pub lex_less : A → A → Bool
  lex_less a b = if key a == key b then ltb (rank a) (rank b) else less (key a) (key b)

  module _ (w : IsWeakOrder less)
      (antisymm : (j k : K) → less j k ≡ false → less k j ≡ false → j ≡ k) where
    lex_less-asymm : (a b : A) → lex_less a b ≡ true → lex_less b a ≡ false
    unfolding lex_less
    lex_less-asymm a b h = ground (arith, w.asymm (key a) (key b))

    lex_less_trans :
        (a b c : A) → lex_less b a ≡ false → lex_less c b ≡ false → lex_less c a ≡ false
    unfolding lex_less
    lex_less_trans a b c h k =
        ground (
          arith,
          w.trans (key a) (key b) (key c),
          antisymm (key a) (key b),
          antisymm (key b) (key c),
        )

    pub lex_less-IsWeakOrder : IsWeakOrder lex_less
    lex_less-IsWeakOrder = record { asymm = lex_less-asymm; trans = lex_less_trans }
