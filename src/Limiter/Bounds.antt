-- ===== src/Limiter/Bounds.antt =====
-- rate_limiter.py: the bounds of a bucket, and what its constructor refuses.
use python_async_api_barebon.Base.{
  ℕ, ⊤, true, false, some, ◌≡◌, ◌≢◌, ◌↔◌, arith, inl, inr, Bool-cases, Option-cases, List, [], ◌∷◌,
}
use python_async_api_barebon.Base.Float.{Float, FloatLaws, min-le_left, le-min}
use python_async_api_barebon.Exec.{ok}
use python_async_api_barebon.Limiter.Bucket.{TokenBucket, new_bucket, refill, round}

module _ {F : Type 0} ⦃o : Float F⦄ where
  -- No debt and no overflow, at a rate that is not negative.
  pub record IsValid (b : TokenBucket F) : Type 0 where
    pub no_debt : o.le o.zero b.tokens ≡ true
    pub fits : o.le b.tokens b.capacity ≡ true
    pub roomy : o.le o.zero b.capacity ≡ true
    pub rate_nonneg : o.le o.zero b.rate ≡ true

  -- A caller's round at a time, for a count of tokens.
  unfoldable pub rounds : List (F × F) → TokenBucket F → TokenBucket F
  rounds [] b = b
  rounds ((now, count) ∷ later) b = rounds later (round now count o.zero b).1

  abbrev pub CountsNonneg : List (F × F) → Type 0
  CountsNonneg [] = ⊤
  CountsNonneg ((now, count) ∷ later) = (o.le o.zero count ≡ true) × CountsNonneg later

  -- The constructor returns a bucket exactly for a positive rate and a positive burst that fits a
  -- float, and then it is full.
  pub new_bucket_iff :
      (rate : F) (burst : ℕ) (now : F) (b : TokenBucket F)
      → (new_bucket rate burst now ≡ ok b) ↔ (
          (o.le rate o.zero ≡ false)
          × (burst ≢ 0)
          × (o.of_int burst ≡ some b.capacity)
          × (b.tokens ≡ b.capacity)
          × (b.rate ≡ rate)
          × (b.last ≡ now))
  unfolding new_bucket
  new_bucket_iff rate burst now b = elim (Option-cases (o.of_int burst)) [
    | inl e ↦ ground arith
    | inr (c, e) ↦ ground arith
  ]

  module _ (laws : FloatLaws F o) where
    pub refill-IsValid : (now : F) (b : TokenBucket F) → IsValid b → IsValid (refill now b)
    unfolding refill
    refill-IsValid now b v = elim (Bool-cases (o.lt o.zero (o.sub now b.last))) [
      | inl later ↦
          let gained = laws.mul_nonneg _ b.rate (laws.le_of_lt _ _ later) v.rate_nonneg in
          let sum = laws.add_nonneg b.tokens _ v.no_debt gained in
          ground (
            arith,
            le-min laws o.zero b.capacity _ v.roomy sum,
            min-le_left laws b.capacity (o.add b.tokens (o.mul (o.sub now b.last) b.rate)),
          )
      | inr h ↦ ground arith
    ]

    pub round-IsValid :
        (now count total : F) (b : TokenBucket F)
        → o.le o.zero count ≡ true
        → IsValid b
        → IsValid (round now count total b).1
    unfolding round
    round-IsValid now count total b h v =
        let b' = refill now b in
        let v' = refill-IsValid now b v in
        ground (
          arith,
          v',
          laws.sub_nonneg b'.tokens count,
          laws.le_trans _ _ _ (laws.sub_le b'.tokens count h) v'.fits,
        )

    -- Over lawful floats, through whatever rounds for counts that are not negative, in whatever
    -- order and at whatever times, a valid bucket never holds less than nothing nor more than its
    -- capacity.
    pub rounds-IsValid :
        (rs : List (F × F)) (b : TokenBucket F)
        → CountsNonneg rs
        → IsValid b
        → IsValid (rounds rs b)
    unfolding rounds
    rounds-IsValid [] b h v = v
    rounds-IsValid ((now, count) ∷ later) b h v =
        rounds-IsValid later (round now count o.zero b).1 h.1
          (round-IsValid now count o.zero b h.0 v)
