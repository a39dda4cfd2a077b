-- ===== src/Expr/Num/Floor.antt =====
-- About floor division and its modulo (crates/expr/src/num.rs).
use eieio.Base.{
  ℕ, zero, suc, ◌+◌, ◌*◌, ◌/◌, ◌%◌, ◌<◌, ◌≡◌, refl, ap, sym, subst, ◌∙◌, Bool, true, false, arith,
  ℤ, pos, negsuc, ◌+ℤ◌, ◌-ℤ◌, ◌*ℤ◌, ok, pos_part, neg_part, sub_ℕ, +ℤ_parts, eq_of_parts, -ℤ_parts,
  if◌then◌else◌, not, ◌&&◌, ◌⊎◌, inl, inr, Bool-cases, ◌≤ℤ◌, ◌<ℤ◌,
}
use eieio.Expr.Num.{
  floor_div, floor_mod, quotient, remainder, is_zero, is_negative, differ, is_minus_one,
}

div_mod : (a n : ℕ) → 0 < n → (a / n) * n + a % n ≡ a
div_mod a n h = omega arith

*ℤ_parts :
    (a b : ℤ)
    → pos_part (a *ℤ b) + pos_part a * neg_part b + neg_part a * pos_part b
      ≡ neg_part (a *ℤ b) + pos_part a * pos_part b + neg_part a * neg_part b
unfolding ◌*ℤ◌
*ℤ_parts a b = ground arith

sub-zero : (k : ℕ) → (pos_part (sub_ℕ 0 k) ≡ 0) × (neg_part (sub_ℕ 0 k) ≡ k)
sub-zero k = (ground arith, ground arith)

quotient_parts :
    (a b : ℤ)
    → 0 < pos_part b + neg_part b
    → pos_part (quotient a b) * pos_part b
        + neg_part (quotient a b) * neg_part b
        + pos_part (remainder a b)
        + neg_part a
      ≡ pos_part a
        + neg_part (remainder a b)
        + pos_part (quotient a b) * neg_part b
        + neg_part (quotient a b) * pos_part b
unfolding quotient remainder
quotient_parts (pos a) (pos b) h = omega arith
quotient_parts (pos a) (negsuc b) h =
    rw ((sub-zero (a / suc b)).0, (sub-zero (a / suc b)).1) (omega arith)
quotient_parts (negsuc a) (pos b) h =
    rw
      (
        (sub-zero (suc a / b)).0,
        (sub-zero (suc a / b)).1,
        (sub-zero (suc a % b)).0,
        (sub-zero (suc a % b)).1,
      )
      (omega arith)
quotient_parts (negsuc a) (negsuc b) h =
    rw ((sub-zero (suc a % suc b)).0, (sub-zero (suc a % suc b)).1) (omega arith)

-- The remainder of the truncating division is smaller than the divisor.
remainder-lt :
    (a b : ℤ)
    → 0 < pos_part b + neg_part b
    → pos_part (remainder a b) + neg_part (remainder a b) < pos_part b + neg_part b
unfolding remainder
remainder-lt (pos a) (pos b) h = omega arith
remainder-lt (pos a) (negsuc b) h = omega arith
remainder-lt (negsuc a) (pos b) h =
    rw ((sub-zero (suc a % b)).0, (sub-zero (suc a % b)).1) (omega arith)
remainder-lt (negsuc a) (negsuc b) h =
    rw ((sub-zero (suc a % suc b)).0, (sub-zero (suc a % suc b)).1) (omega arith)

-- Whether the truncation went the wrong way.
abbrev adjusts : ℤ → ℤ → Bool
adjusts a b = not (is_zero (remainder a b)) && differ (is_negative (remainder a b)) (is_negative b)

floor_div-inv :
    (a b q : ℤ)
    → floor_div a b ≡ ok q
    → (is_zero b ≡ false) × ((if adjusts a b then quotient a b -ℤ pos 1 else quotient a b) ≡ q)
unfolding floor_div
floor_div-inv a b q h = ground arith

floor_mod-inv :
    (a b r : ℤ)
    → floor_mod a b ≡ ok r
    → ((is_minus_one b ≡ true) × (r ≡ pos 0))
      ⊎ ((is_minus_one b ≡ false)
          × ((if adjusts a b then remainder a b +ℤ b else remainder a b) ≡ r))
unfolding floor_mod
floor_mod-inv a b r h = elim (Bool-cases (is_minus_one b)) [
  | inl minus ↦ inl (minus, ground arith)
  | inr other ↦ inr (other, ground arith)
]

-- What is left of `a` after `q` times `b`, in parts.
abbrev Leaves : ℤ → ℤ → ℤ → ℤ → Type 0
Leaves a b q r =
    pos_part q * pos_part b + neg_part q * neg_part b + pos_part r + neg_part a
    ≡ pos_part a + neg_part r + pos_part q * neg_part b + neg_part q * pos_part b

Leaves-same : (a b q r : ℤ) → Leaves a b q r → (q *ℤ b) +ℤ r ≡ a
Leaves-same a b q r h =
    eq_of_parts ((q *ℤ b) +ℤ r) a (omega (arith, +ℤ_parts (q *ℤ b) r, *ℤ_parts q b, h))

-- One less of the quotient, and the divisor added to the remainder.
Leaves-adjusted : (a b q r : ℤ) → Leaves a b q r → ((q -ℤ pos 1) *ℤ b) +ℤ (r +ℤ b) ≡ a
Leaves-adjusted a b q r h =
    let less : pos_part (q -ℤ pos 1) + neg_part q + 1 ≡ pos_part q + neg_part (q -ℤ pos 1) =
      omega (arith, -ℤ_parts q (pos 1)) in
    eq_of_parts (((q -ℤ pos 1) *ℤ b) +ℤ (r +ℤ b)) a (
      omega (
        arith,
        +ℤ_parts ((q -ℤ pos 1) *ℤ b) (r +ℤ b),
        +ℤ_parts r b,
        *ℤ_parts (q -ℤ pos 1) b,
        h,
        ap (λ k. k * pos_part b) less,
        ap (λ k. k * neg_part b) less,
      ))

-- A remainder on the divisor's side of zero, and nearer to zero than the divisor.
abbrev pub OnSide : ℤ → ℤ → Type 0
OnSide (pos b) r = (pos 0 ≤ℤ r) × (r <ℤ pos b)
OnSide (negsuc b) r = (negsuc b <ℤ r) × (r ≤ℤ pos 0)

side_same :
    (b r : ℤ)
    → (not (is_zero r) && differ (is_negative r) (is_negative b)) ≡ false
    → pos_part r + neg_part r < pos_part b + neg_part b
    → OnSide b r
side_same (pos b) (pos r) h hr = (omega arith, omega arith)
side_same (pos b) (negsuc r) h hr = absurd (ground arith)
side_same (negsuc b) (pos r) h hr = (ground arith, ground arith)
side_same (negsuc b) (negsuc r) h hr = (omega arith, omega arith)

side_adjusted :
    (b r : ℤ)
    → (not (is_zero r) && differ (is_negative r) (is_negative b)) ≡ true
    → pos_part r + neg_part r < pos_part b + neg_part b
    → OnSide b (r +ℤ b)
side_adjusted (pos b) (pos r) h hr = absurd (ground arith)
side_adjusted (pos b) (negsuc r) h hr =
    (omega (arith, +ℤ_parts (negsuc r) (pos b)), omega (arith, +ℤ_parts (negsuc r) (pos b)))
side_adjusted (negsuc b) (pos r) h hr =
    (ground (arith, +ℤ_parts (pos r) (negsuc b)), ground (arith, +ℤ_parts (pos r) (negsuc b)))
side_adjusted (negsuc b) (negsuc r) h hr = absurd (ground arith)

nonzero : (b : ℤ) → is_zero b ≡ false → 0 < pos_part b + neg_part b
nonzero (pos b) h = ground arith
nonzero (negsuc b) h = omega arith

-- The two results of one division: `q` and `r` come from the same test.
by_adjusting :
    (a b q r : ℤ)
    → 0 < pos_part b + neg_part b
    → (test : Bool) → adjusts a b ≡ test
    → (if test then quotient a b -ℤ pos 1 else quotient a b) ≡ q
    → (if test then remainder a b +ℤ b else remainder a b) ≡ r
    → ((q *ℤ b) +ℤ r ≡ a) × OnSide b r
by_adjusting a b q r h true e hq hr =
    subst (λ k. ((k *ℤ b) +ℤ r ≡ a) × OnSide b r) hq
      (subst (λ k. (((quotient a b -ℤ pos 1) *ℤ b) +ℤ k ≡ a) × OnSide b k) hr
        (
          Leaves-adjusted a b (quotient a b) (remainder a b) (quotient_parts a b h),
          side_adjusted b (remainder a b) e (remainder-lt a b h),
        ))
by_adjusting a b q r h false e hq hr =
    subst (λ k. ((k *ℤ b) +ℤ r ≡ a) × OnSide b r) hq
      (subst (λ k. ((quotient a b *ℤ b) +ℤ k ≡ a) × OnSide b k) hr
        (
          Leaves-same a b (quotient a b) (remainder a b) (quotient_parts a b h),
          side_same b (remainder a b) e (remainder-lt a b h),
        ))

-- By -1 nothing is left, so nothing is adjusted.
minus_one_exact :
    (a b : ℤ) → is_minus_one b ≡ true → (remainder a b ≡ pos 0) × (adjusts a b ≡ false)
minus_one_exact a b h =
    from_none (remainder a b)
      (ground (arith, remainder-lt a b (minus_one_size b h), minus_one_size b h))
  where
    minus_one_size : (b : ℤ) → is_minus_one b ≡ true → 0 < pos_part b + neg_part b
    minus_one_size b h = ground arith

    from_none :
        (r : ℤ)
        → pos_part r + neg_part r ≡ 0
        → (r ≡ pos 0) × ((not (is_zero r) && differ (is_negative r) (is_negative b)) ≡ false)
    from_none (pos zero) e = (refl, refl)
    from_none (pos (suc n)) e = absurd (omega arith)
    from_none (negsuc n) e = absurd (omega arith)

-- Floor division: when `floor_div` and `floor_mod` both answer, the quotient times the divisor
-- plus the modulo is the dividend, and the modulo lies between zero, included, and the divisor:
-- it has the divisor's sign.
pub floor_div-floor_mod :
    (a b q r : ℤ) → floor_div a b ≡ ok q → floor_mod a b ≡ ok r → ((q *ℤ b) +ℤ r ≡ a) × OnSide b r
floor_div-floor_mod a b q r hq hr = from_mod (floor_mod-inv a b r hr)
  where
    from_mod :
        ((is_minus_one b ≡ true) × (r ≡ pos 0))
          ⊎ ((is_minus_one b ≡ false)
              × ((if adjusts a b then remainder a b +ℤ b else remainder a b) ≡ r))
        → ((q *ℤ b) +ℤ r ≡ a) × OnSide b r
    from_mod (inl (minus, zero_left)) =
        let exact : (remainder a b ≡ pos 0) × (adjusts a b ≡ false) = minus_one_exact a b minus in
        by_adjusting a b q r (nonzero b (floor_div-inv a b q hq).0) (adjusts a b) refl
          (floor_div-inv a b q hq).1 (rw exact.1 (exact.0 ∙ sym zero_left))
    from_mod (inr (other, hr')) =
        by_adjusting a b q r (nonzero b (floor_div-inv a b q hq).0) (adjusts a b) refl
          (floor_div-inv a b q hq).1 hr'
