-- ===== src/Submit.antt =====
-- _chunked-submit.mjs: a submission of many steps to a simulation session, sent in posts of at
-- most `chunk` steps.
pub mod Stored
use pillar_wallets_xyz.Base.{
  ℕ, zero, suc, ◌+◌, ◌-◌, Bool, true, false, ◌||◌, Option, none, some, List, length, slice, ltb,
  leb,
}

-- What the SDK sees of an answer; a request that throws counts as `{ ok: false, status: 0 }`.
pub record Answer : Type 0 where
  pub ok : Bool
  pub status : ℕ

-- The origin: what it stores, how it answers a post, and how many steps a read-back shows
-- (`none` if the read is not ok); a read that throws is left out.
pub record Origin (Step : Type 0) : Type 1 where
  pub Session : Type 0
  pub post : List Step → Session → Answer × Session
  pub held : Session → Option ℕ

module _ {Step : Type 0} (origin : Origin Step) where
  -- `got.ok ? steps.length : i`
  abbrev pub resume_at : ℕ → Option ℕ → ℕ
  resume_at i none = i
  resume_at i (some have) = have

  -- The loop `while (i < steps.length)`: each turn takes one of the turns that are left.
  unfoldable pub submit_from :
      ℕ → ℕ → List Step → ℕ → ℕ → Option Answer → origin.Session → Option Answer × origin.Session
  submit_from zero chunk steps i left last s = (last, s)
  submit_from (suc turns) chunk steps i left last s =
      let part = slice steps i (i + chunk) in
      let (answer, s1) = origin.post part s in
      elim (ltb i (length steps)) [
        | false ↦ (last, s)
        | true ↦ elim answer.ok [
          | true ↦ submit_from turns chunk steps (i + length part) left (some answer) s1
          | false ↦ elim (ltb answer.status 500 || leb left 0) [
            | true ↦ (some answer, s1)
            | false ↦
                submit_from turns chunk steps (resume_at i (origin.held s1)) (left - 1)
                  (some answer) s1
          ]
        ]
      ]

  -- The wrapped `fetch` on a body with steps.
  unfoldable pub submit : ℕ → ℕ → ℕ → List Step → origin.Session → Option Answer × origin.Session
  unfolding submit_from
  submit turns chunk retries steps s =
      let (answer, s1) = origin.post steps s in
      elim (leb (length steps) chunk) [
        | true ↦ (some answer, s1)
        | false ↦ submit_from turns chunk steps 0 retries none s
      ]
