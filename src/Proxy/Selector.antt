-- ===== src/Proxy/Selector.antt =====
-- `_WeightedSelector` of src/autonomous_development/adapters/canary_proxy/router.py. `digest` is
-- the SHA-256 digest of the UTF-8 encoding of a text, as its bytes.
use autonomous_development.Prelude.{
  ℕ, ◌+◌, ◌*◌, ◌%◌, ◌≤◌, ◌≡◌, sym, subst, String, List, [], ◌∷◌, concat, leb, ltb, if◌then◌else◌,
  arith,
}
use autonomous_development.Traffic.Ports.{TrafficRouteSnapshot}

pub data Arm : Type 0 where
  control candidate : Arm

-- `xs[:n]`
abbrev first : ℕ → List ℕ → List ℕ
first n [] = []
first ℕ.zero (x ∷ xs) = []
first (ℕ.suc n) (x ∷ xs) = x ∷ first n xs

-- `int.from_bytes(bytes, "big")`, on what was read so far.
abbrev from_bytes : ℕ → List ℕ → ℕ
from_bytes n [] = n
from_bytes n (b ∷ bytes) = from_bytes (n * 256 + b) bytes

module _ (digest : String → List ℕ) where
  unfoldable pub slot : (experiment_id session_id : String) → ℕ
  slot experiment_id session_id =
      from_bytes 0 (first 8 (digest (concat experiment_id (concat "\0" session_id)))) % 100

  unfoldable pub choose : TrafficRouteSnapshot → (session_id : String) → Arm
  unfolding slot
  choose route session_id =
      let weight = route.candidate_weight_percent in
      if leb weight 0
      then Arm.control
      else if leb 100 weight
      then Arm.candidate
      else if ltb (slot route.experiment_id session_id) weight
      then Arm.candidate
      else Arm.control

  choose_at : (weight slot : ℕ) → Arm
  choose_at weight slot =
      if leb weight 0
      then Arm.control
      else if leb 100 weight
      then Arm.candidate
      else if ltb slot weight
      then Arm.candidate
      else Arm.control

  choose_at-sticky :
      (w w' slot : ℕ)
      → w ≤ w'
      → choose_at w slot ≡ Arm.candidate
      → choose_at w' slot ≡ Arm.candidate
  unfolding choose_at
  choose_at-sticky w w' slot grows h = ground arith

  -- A session that is sent to the candidate stays with it while the weight of its experiment grows.
  pub choose-sticky :
      (route route' : TrafficRouteSnapshot) (session_id : String)
      → route'.experiment_id ≡ route.experiment_id
      → route.candidate_weight_percent ≤ route'.candidate_weight_percent
      → choose route session_id ≡ Arm.candidate
      → choose route' session_id ≡ Arm.candidate
  unfolding choose choose_at
  choose-sticky route route' session_id same grows h =
      subst (λ i. choose_at route'.candidate_weight_percent (slot i session_id) ≡ Arm.candidate)
        (sym same)
        (choose_at-sticky route.candidate_weight_percent route'.candidate_weight_percent
          (slot route.experiment_id session_id) grows h)
