-- ===== src/Metrics/Process/Ranking.antt =====
-- The two comparisons rank by a number, the largest first; away from NaN this is a total preorder.
use vigil_collector.Prelude.{◌≡◌, ap, ◌∙◌, inl, inr, true, false, not, arith, Bool-cases}
use vigil_collector.Float.{Float, Cmp, partial_cmp, ◌≼◌, IsOrdered}
use vigil_collector.Sort.Laws.{Before}
use vigil_collector.Sort.Order.{IsPreorder}
use vigil_collector.Metrics.Process.Collect.{or_equal}

module _ {ℓ} {A : Type ℓ} {F : Type 0} ⦃f : Float F⦄ (laws : IsOrdered F) (key : A → F) where
  open laws use {refl_of_le, le_trans, lt-eq-not-le, le_total, ne_of_lt}

  abbrev desc : A → A → Cmp
  desc a b = or_equal (partial_cmp (key b) (key a))

  pub le_of_before : (a b : A) → key a ≼ key a → key b ≼ key b → Before desc a b → key b ≼ key a
  unfolding or_equal partial_cmp
  le_of_before a b na nb h = elim (le_total (key b) (key a) nb na) [
    | inl le ↦ le
    | inr ge ↦ elim (Bool-cases (f.le (key b) (key a))) [
      | inl le ↦ le
      | inr gt ↦
          let up : f.lt (key a) (key b) ≡ true = lt-eq-not-le (key a) (key b) na nb ∙ ap not gt in
          let down : f.lt (key b) (key a) ≡ false =
            lt-eq-not-le (key b) (key a) nb na ∙ ap not ge in
          let apart = ne_of_lt (key a) (key b) up in absurd (h (rw (down, apart, up)))
    ]
  ]

  pub Before-of_le : (a b : A) → key a ≼ key a → key b ≼ key b → key b ≼ key a → Before desc a b
  unfolding or_equal partial_cmp
  Before-of_le a b na nb le g =
      let up : f.lt (key a) (key b) ≡ false = lt-eq-not-le (key a) (key b) na nb ∙ ap not le in
      ground arith

  le_of_greater : (a b : A) → key a ≼ key a → key b ≼ key b → desc a b ≡ Cmp.greater → key a ≼ key b
  le_of_greater a b na nb g = elim (le_total (key a) (key b) na nb) [
    | inl le ↦ le
    | inr ge ↦ absurd (Before-of_le a b na nb ge g)
  ]

  pub desc-IsPreorder : IsPreorder desc (λ a. key a ≼ key a)
  desc-IsPreorder = record {
    before_trans = λ a b c na nb nc h k.
        Before-of_le a c na nc
          (le_trans (key c) (key b) (key a) (le_of_before b c nb nc k) (le_of_before a b na nb h));
    before_of_greater = λ a b na nb g. Before-of_le b a nb na (le_of_greater a b na nb g);
  }
