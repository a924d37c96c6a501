-- ===== src/Tests/Submit.antt =====
-- A submission to a small origin.
use pillar_wallets_xyz.Base.{arith, ℕ, ◌≡◌, refl, true, some, List, [], ◌∷◌, ◌++◌, length}
use pillar_wallets_xyz.Submit.{Origin, submit}
use pillar_wallets_xyz.Submit.Stored.{Accepts, submit-stored}

abbrev session : Origin ℕ
session = record {
  Session = List ℕ;
  post = λ part s. (record { ok = true; status = 200 }, s ++ part);
  held = λ s. some (length s);
}

abbrev session_accepts : Accepts session
session_accepts = record { stored = λ s. s; post_ok = λ part s. refl; post_stores = λ part s. refl }

submit-stored_example :
    (submit session 5 2 6 (4 ∷ 5 ∷ 6 ∷ 7 ∷ 8 ∷ []) []).1 ≡ 4 ∷ 5 ∷ 6 ∷ 7 ∷ 8 ∷ []
submit-stored_example =
    submit-stored session session_accepts 5 2 6 (4 ∷ 5 ∷ 6 ∷ 7 ∷ 8 ∷ []) [] (omega arith)
      (omega arith) refl
