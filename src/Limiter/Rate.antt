-- ===== src/Limiter/Rate.antt =====
-- async_hardened_client/rate_limiter.py: the rate that a bucket enforces, over exact arithmetic.
use python_async_api_barebon.Base.{
  ⊤, true, false, ◌≡◌, ◌⊎◌, sym, arith, inl, inr, Bool-cases, List, [], ◌∷◌,
}
use python_async_api_barebon.Base.Float.{Float, FloatLaws, min-le_right}
use python_async_api_barebon.Limiter.Bounds.{IsValid, CountsNonneg, round-IsValid}
use python_async_api_barebon.Limiter.Bucket.{TokenBucket, Round, granted, sleeps, refill, round}

-- Arithmetic without rounding.
pub record ExactLaws (F : Type 0) (o : Float F) : Type 0 where
  pub add_mono :
      (a b c d : F) → o.le a b ≡ true → o.le c d ≡ true → o.le (o.add a c) (o.add b d) ≡ true
  pub add_assoc : (a b c : F) → o.add (o.add a b) c ≡ o.add a (o.add b c)
  pub le-add : (a b : F) → o.le o.zero b ≡ true → o.le a (o.add a b) ≡ true
  pub add-sub : (a b : F) → o.le b a ≡ true → o.add b (o.sub a b) ≡ a
  pub zero-add : (a : F) → o.add o.zero a ≡ a
  pub le_of_sub_pos : (a b : F) → o.lt o.zero (o.sub a b) ≡ true → o.le b a ≡ true
  -- the gain over a span of time is the sum of those over its parts
  pub gain_split :
      (a b c r : F)
      → o.le a b ≡ true
      → o.le b c ≡ true
      → o.add (o.mul (o.sub b a) r) (o.mul (o.sub c b) r) ≡ o.mul (o.sub c a) r
  pub le_of_not_le : (a b : F) → o.le a b ≡ false → o.le b a ≡ true
  pub mul_mono :
      (a b r : F) → o.le o.zero r ≡ true → o.le a b ≡ true → o.le (o.mul a r) (o.mul b r) ≡ true
  -- a wait of `d / r` gains `d`
  pub div-mul : (d r : F) → o.lt o.zero r ≡ true → o.le d (o.mul (o.div d r) r) ≡ true

module _ {F : Type 0} ⦃o : Float F⦄ where
  abbrev grant_of : Round F → F → F
  grant_of (granted delay) count = count
  grant_of (sleeps wait total) count = o.zero

  -- The tokens that rounds at their times hand out.
  unfoldable pub issued : List (F × F) → TokenBucket F → F
  issued [] b = o.zero
  issued ((now, count) ∷ later) b =
      let (r, b') = round now count o.zero b in o.add (grant_of r count) (issued later b')

  abbrev pub TimesUpTo : F → List (F × F) → Type 0
  TimesUpTo T [] = ⊤
  TimesUpTo T ((now, count) ∷ later) = (o.le now T ≡ true) × TimesUpTo T later

  module _ (laws : FloatLaws F o) (exact : ExactLaws F o) where
    abbrev gain : F → F → F → F
    gain r from to = o.mul (o.sub to from) r

    combine :
        (g i t' t g₁ g₂ all : F)
        → o.le i (o.add t' g₂) ≡ true
        → o.le (o.add g t') (o.add t g₁) ≡ true
        → o.add g₁ g₂ ≡ all
        → o.le (o.add g i) (o.add t all) ≡ true
    combine g i t' t g₁ g₂ all rest held e =
        let first = exact.add_mono g g i (o.add t' g₂) (laws.le_refl g) rest in
        let second = exact.add_mono _ _ g₂ g₂ held (laws.le_refl g₂) in
        laws.le_trans _ _ _ (rw (sym (exact.add_assoc g t' g₂)) at first)
          (rw (exact.add_assoc t g₁ g₂, e) at second)

    refill-gain :
        (now : F) (b : TokenBucket F)
        → IsValid b
        → let b' = refill now b in
          (o.le b'.tokens (o.add b.tokens (gain b.rate b.last b'.last)) ≡ true)
          × (o.le b.last b'.last ≡ true)
          × (b'.rate ≡ b.rate)
          × ((b'.last ≡ now) ⊎ (b'.last ≡ b.last))
    unfolding refill
    refill-gain now b v = elim (Bool-cases (o.lt o.zero (o.sub now b.last))) [
      | inl later ↦ ground (
        arith,
        min-le_right laws b.capacity (o.add b.tokens (gain b.rate b.last now)),
        exact.le_of_sub_pos now b.last later,
      )
      | inr h ↦
          let span = laws.sub_nonneg b.last b.last (laws.le_refl b.last) in
          ground (
            arith,
            laws.le_refl b.last,
            exact.le-add b.tokens _ (laws.mul_nonneg _ b.rate span v.rate_nonneg),
          )
    ]

    round-gain :
        (now count : F) (b : TokenBucket F)
        → IsValid b
        → let (r, b') = round now count o.zero b in
          (o.le (o.add (grant_of r count) b'.tokens) (o.add b.tokens (gain b.rate b.last b'.last))
            ≡ true)
          × (o.le b.last b'.last ≡ true)
          × (b'.rate ≡ b.rate)
          × ((b'.last ≡ now) ⊎ (b'.last ≡ b.last))
    unfolding round
    round-gain now count b v =
        let b' = refill now b in
        ground (arith, refill-gain now b v, exact.add-sub b'.tokens count, exact.zero-add b'.tokens)

    -- Over exact arithmetic, up to any time the callers of a valid bucket together are granted at
    -- most the tokens that it held and what its rate gains from its last refill to that time, in
    -- whatever order their rounds for counts that are not negative come.
    pub issued-le :
        (T : F) (rs : List (F × F)) (b : TokenBucket F)
        → IsValid b
        → CountsNonneg rs
        → TimesUpTo T rs
        → o.le b.last T ≡ true
        → o.le (issued rs b) (o.add b.tokens (o.mul (o.sub T b.last) b.rate)) ≡ true
    unfolding issued
    issued-le T [] b v nonneg times h =
        laws.add_nonneg b.tokens _ v.no_debt
          (laws.mul_nonneg _ b.rate (laws.sub_nonneg T b.last h) v.rate_nonneg)
    issued-le T ((now, count) ∷ later) b v nonneg times h =
        let (r, b') = round now count o.zero b in
        let (held, forward, same, at) = round-gain now count b v in
        let v' = round-IsValid laws now count o.zero b nonneg.0 v in
        let h' : o.le b'.last T ≡ true = ground (arith, at, times.0, h) in
        let rest = issued-le T later b' v' nonneg.1 times.1 h' in
        combine _ _ _ _ _ _ _ rest held
          (rw same (exact.gain_split b.last b'.last T b.rate forward h'))

    -- The wait that the first round of a lone caller asks for.
    abbrev pub first_wait : F → F → TokenBucket F → F
    first_wait now count b = o.div (o.sub count (refill now b).tokens) b.rate
