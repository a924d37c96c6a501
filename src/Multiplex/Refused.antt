-- ===== src/Multiplex/Refused.antt =====
-- The splits of simul-juice-safe-v6-webauthn-multiplex.js against clarity-5-webauthn-v4.clar.
use pillar_wallets_xyz.Base.{◌≡◌, refl, Bool, true, false, ◌&&◌, [], ◌∷◌, Bytes}
use pillar_wallets_xyz.Clarity.Outcome.{ok}
use pillar_wallets_xyz.Webauthn.Crypto.{Crypto}
use pillar_wallets_xyz.Webauthn.Anchored.{challenge_is_anchored, verify_webauthn_signature}
use pillar_wallets_xyz.Multiplex.{Split, split1, split2, split3}

&&-false : (b : Bool) → b && false ≡ false
&&-false true = refl
&&-false false = refl

abbrev IsFree : Split → Type 0
IsFree s = challenge_is_anchored s.prefix s.suffix ≡ false

-- The first two suffixes begin with the filler, the third prefix runs past the canonical one.
split1-IsFree : (h1 h2 h3 : Bytes) → IsFree (split1 h1 h2 h3)
unfolding challenge_is_anchored split1
split1-IsFree h1 h2 h3 = refl

split2-IsFree : (h1 h2 h3 : Bytes) → IsFree (split2 h1 h2 h3)
unfolding challenge_is_anchored split2
split2-IsFree h1 h2 h3 = &&-false _

split3-IsFree : (h1 h2 h3 : Bytes) → IsFree (split3 h1 h2 h3)
unfolding challenge_is_anchored split3
split3-IsFree [] h2 h3 = refl
split3-IsFree (x ∷ h1) h2 h3 = refl

module _ (c : Crypto) where
  free-refused :
      (key challenge auth sig : Bytes) (s : Split)
      → IsFree s
      → verify_webauthn_signature c key challenge auth s.prefix s.suffix sig ≡ ok false
  unfolding verify_webauthn_signature
  free-refused key challenge auth sig s free = rw free

  -- Whatever three texts the challenge multiplexes, and for every key, challenge, authenticator
  -- datum and signature, the anchored verifier answers false for each of the three splits.
  pub splits-refused :
      (key challenge auth sig h1 h2 h3 : Bytes)
      → (verify_webauthn_signature c key challenge auth
            (split1 h1 h2 h3).prefix
            (split1 h1 h2 h3).suffix
            sig
          ≡ ok false)
        × (verify_webauthn_signature c key challenge auth
              (split2 h1 h2 h3).prefix
              (split2 h1 h2 h3).suffix
              sig
            ≡ ok false)
        × (verify_webauthn_signature c key challenge auth
              (split3 h1 h2 h3).prefix
              (split3 h1 h2 h3).suffix
              sig
            ≡ ok false)
  splits-refused key challenge auth sig h1 h2 h3 = (
    free-refused key challenge auth sig (split1 h1 h2 h3) (split1-IsFree h1 h2 h3),
    free-refused key challenge auth sig (split2 h1 h2 h3) (split2-IsFree h1 h2 h3),
    free-refused key challenge auth sig (split3 h1 h2 h3) (split3-IsFree h1 h2 h3),
  )
