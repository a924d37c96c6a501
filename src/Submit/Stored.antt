-- ===== src/Submit/Stored.antt =====
-- What _chunked-submit.mjs leaves at an origin that accepts every post.
use pillar_wallets_xyz.Base.{
  arith, ℕ, zero, suc, ◌+◌, ◌-◌, ◌≤◌, ◌<◌, ◌≡◌, refl, sym, ap, ◌∙◌, true, false, Option, none, some,
  List, [], ◌∷◌, ◌++◌, length, slice, take, drop, take-add, take_all, ltb, leb, ltb→lt, Bool-cases,
  inl, inr, length-take, length-drop,
}
use pillar_wallets_xyz.Submit.{Answer, Origin, submit_from, submit}

-- An origin that accepts every post and stores its steps behind those it has.
pub record Accepts {Step : Type 0} (origin : Origin Step) : Type 0 where
  pub stored : origin.Session → List Step
  pub post_ok : (part : List Step) (s : origin.Session) → (origin.post part s).0.ok ≡ true
  pub post_stores :
      (part : List Step) (s : origin.Session) → stored (origin.post part s).1 ≡ stored s ++ part

module _ {Step : Type 0} where
  take-length-take : (k : ℕ) (xs : List Step) → take (length (take k xs)) xs ≡ take k xs
  take-length-take zero xs = refl
  take-length-take (suc k) [] = refl
  take-length-take (suc k) (x ∷ xs) = ap (λ ys. x ∷ ys) (take-length-take k xs)

  next_part :
      (i k : ℕ) (xs : List Step)
      → take (i + length (take k (drop i xs))) xs ≡ take i xs ++ take k (drop i xs)
  next_part i k xs =
      take-add i (length (take k (drop i xs))) xs
      ∙ ap (λ ys. take i xs ++ ys) (take-length-take k (drop i xs))

at_end : (i n : ℕ) → ltb i n ≡ false → n ≤ i
at_end i n h = ground arith

module _ {Step : Type 0} (origin : Origin Step) (accepts : Accepts origin) where
  pub submit_from-stored :
      (turns chunk : ℕ) (steps : List Step) (i left : ℕ) (last : Option Answer) (s : origin.Session)
      → 0 < chunk
      → i ≤ length steps
      → length steps ≤ i + turns
      → accepts.stored s ≡ take i steps
      → accepts.stored (submit_from origin turns chunk steps i left last s).1 ≡ steps
  unfolding submit_from
  submit_from-stored zero chunk steps i left last s positive within enough before =
      before ∙ take_all i steps (omega (arith, enough))
  submit_from-stored (suc turns) chunk steps i left last s positive within enough before =
      elim (Bool-cases (ltb i (length steps))) [
        | inl more ↦
            let part : List Step = slice steps i (i + chunk) in
            let small = length-take (i + chunk - i) (drop i steps) in
            let rest = length-drop i steps in
            let below = ltb→lt i (length steps) more in
            let s1 : origin.Session = (origin.post part s).1 in
            let after : accepts.stored s1 ≡ take (i + length part) steps =
              accepts.post_stores part s
              ∙ (ap (λ front. front ++ part) before ∙ sym (next_part i (i + chunk - i) steps)) in
            rw (submit_from, more, accepts.post_ok part s)
              (submit_from-stored turns chunk steps (i + length part) left
                (some (origin.post part s).0) s1 positive (omega (arith, small, rest, below))
                (omega (arith, small, rest, below, positive, enough)) after)
        | inr done ↦
            rw (submit_from, done) (before ∙ take_all i steps (at_end i (length steps) done))
      ]

  -- If an origin accepts every post and appends its steps, then a submission into an empty
  -- session, in chunks of at least one step and with as many turns as there are steps, leaves
  -- exactly the submitted steps in their order.
  pub submit-stored :
      (turns chunk retries : ℕ) (steps : List Step) (s : origin.Session)
      → 0 < chunk
      → length steps ≤ turns
      → accepts.stored s ≡ []
      → accepts.stored (submit origin turns chunk retries steps s).1 ≡ steps
  unfolding submit
  submit-stored turns chunk retries steps s positive enough empty =
      elim (Bool-cases (leb (length steps) chunk)) [
        | inl short ↦
            rw (submit, short) (accepts.post_stores steps s ∙ ap (λ front. front ++ steps) empty)
        | inr long ↦
            rw (submit, long)
              (submit_from-stored turns chunk steps 0 retries none s positive (omega arith)
                (omega (arith, enough)) empty)
      ]
