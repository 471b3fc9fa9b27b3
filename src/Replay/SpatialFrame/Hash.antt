-- ===== src/Replay/SpatialFrame/Hash.antt =====
-- server/runtime/spatial_frame.cpp: the hash of a frame. `std::sort` is an insertion sort that keeps the
-- order of elements the comparison does not tell apart, an order which the standard leaves open.
use rfidsystem.Prelude.{
  ℕ, ◌+◌, ◌-◌, ◌*◌, ◌/◌, ◌==◌, ltb, Bool, List, [], ◌∷◌, map, u64, u64_mod, if◌then◌else◌,
}
use rfidsystem.Prelude.Int.{ltb_ℤ, eq_ℤ}
use Prim.Native.Nat.{bit_xor}
use rfidsystem.Replay.Bytes.{Bytes}
use rfidsystem.Replay.SpatialFrame.{
  Machine, AssetPosition, HeatCell, CongestionZone, DecisionPoint, PathPrediction, DecisionOverlay,
  SpatialFrame,
}

-- `seed ^= hasher(val) + 0x9e3779b9 + (seed << 6) + (seed >> 2)`, from the value's `std::hash`.
unfoldable pub hash_combine : ℕ → ℕ → ℕ
hash_combine seed hashed = bit_xor seed (u64 (hashed + 0x9e3779b9 + u64 (seed * 64) + seed / 4))

-- A `char` is signed: its conversion to `uint64_t` extends the sign.
abbrev pub char_to_u64 : ℕ → ℕ
char_to_u64 c = if ltb c 128 then c else c + (u64_mod - 256)

unfoldable pub hash_chars : ℕ → Bytes → ℕ
hash_chars hash [] = hash
hash_chars hash (c ∷ cs) = hash_chars (u64 (bit_xor hash (char_to_u64 c) * 0x100000001b3)) cs

unfoldable pub hash_string : Bytes → ℕ
hash_string s = hash_chars 0xcbf29ce484222325 s

unfoldable pub insert_by {ℓ} : {A : Type ℓ} → (A → A → Bool) → A → List A → List A
insert_by less a [] = a ∷ []
insert_by less a (b ∷ bs) =
    let rest = insert_by less a bs in if less b a then b ∷ rest else a ∷ b ∷ bs

unfoldable pub sort_by {ℓ} : {A : Type ℓ} → (A → A → Bool) → List A → List A
sort_by less [] = []
sort_by less (a ∷ rest) = insert_by less a (sort_by less rest)

-- A loop over elements, each with what it combines into the hash.
unfoldable pub hash_all {ℓ} : {A : Type ℓ} → (ℕ → A → ℕ) → ℕ → List A → ℕ
hash_all f result [] = result
hash_all f result (a ∷ rest) = hash_all f (f result a) rest

-- The calls of `hashCombine` in a row.
unfoldable pub combine_all : ℕ → List ℕ → ℕ
combine_all result [] = result
combine_all result (h ∷ hs) = combine_all (hash_combine result h) hs

-- The characters up to the first that is zero.
unfoldable pub until_zero : Bytes → Bytes
until_zero [] = []
until_zero (c ∷ cs) = let rest = until_zero cs in if c == 0 then [] else c ∷ rest

module _ (m : Machine) where
  unfoldable pub hash_asset : ℕ → AssetPosition m.D m.F → ℕ
  hash_asset result a =
      let before : ℕ = combine_all result (
        m.std_hash_i32 a.asset_id
        ∷ m.std_hash_u64 (hash_string a.asset_name)
        ∷ m.std_hash_u64 (hash_string a.tag_id)
        ∷ m.std_hash_u64 (m.double_bits a.x)
        ∷ m.std_hash_u64 (m.double_bits a.y)
        ∷ m.std_hash_u64 (m.double_bits a.vx)
        ∷ m.std_hash_u64 (m.double_bits a.vy)
        ∷ m.std_hash_u64 (m.double_bits a.risk_score)
        ∷ m.std_hash_i32 a.state
        ∷ m.std_hash_u64 (m.float_bits a.size)
        ∷ m.std_hash_u64 (hash_string a.top_action)
        ∷ m.std_hash_u64 (m.double_bits a.top_score)
        ∷ m.std_hash_u64 (m.double_bits a.predicted_x)
        ∷ m.std_hash_u64 (m.double_bits a.predicted_y)
        ∷ m.std_hash_u64 (m.double_bits a.prediction_confidence)
        ∷ []) in
      hash_all
        (λ r p.
          combine_all r
            (m.std_hash_u64 (hash_string p.0) ∷ m.std_hash_u64 (m.double_bits p.1) ∷ []))
        before a.action_scores

  unfoldable pub hash_cell : ℕ → HeatCell m.F → ℕ
  hash_cell result c =
      combine_all result
        (m.std_hash_i32 c.x ∷ m.std_hash_i32 c.y ∷ m.std_hash_u64 (m.float_bits c.value) ∷ [])

  unfoldable pub hash_zone : ℕ → CongestionZone m.F → ℕ
  hash_zone result z = combine_all result (
      m.std_hash_i32 z.id
      ∷ m.std_hash_u64 (hash_string z.name)
      ∷ m.std_hash_u64 (m.float_bits z.x)
      ∷ m.std_hash_u64 (m.float_bits z.y)
      ∷ m.std_hash_u64 (m.float_bits z.radius)
      ∷ m.std_hash_u64 (m.float_bits z.density)
      ∷ m.std_hash_i32 z.asset_count
      ∷ m.std_hash_u64 (hash_string z.level)
      ∷ [])

  unfoldable pub hash_decision : ℕ → DecisionPoint m.D → ℕ
  hash_decision result d = combine_all result (
      m.std_hash_i32 d.asset_id
      ∷ m.std_hash_u64 (hash_string d.action)
      ∷ m.std_hash_u64 (m.double_bits d.confidence)
      ∷ m.std_hash_u64 (m.double_bits d.expected_reward)
      ∷ m.std_hash_u64 (hash_string d.reason)
      ∷ [])

  unfoldable pub hash_prediction : ℕ → PathPrediction m.D → ℕ
  hash_prediction result p = combine_all result (
      m.std_hash_i32 p.asset_id
      ∷ m.std_hash_u64 (m.double_bits p.x)
      ∷ m.std_hash_u64 (m.double_bits p.y)
      ∷ m.std_hash_u64 (m.double_bits p.confidence)
      ∷ m.std_hash_i64 p.timestamp
      ∷ [])

  unfoldable pub hash_overlay : ℕ → DecisionOverlay m.F → ℕ
  hash_overlay result o =
      let before : ℕ = combine_all result (
        m.std_hash_u64 o.asset_id
        ∷ m.std_hash_u64 (m.float_bits o.x)
        ∷ m.std_hash_u64 (m.float_bits o.y)
        ∷ m.std_hash_u32 o.action
        ∷ m.std_hash_u64 (m.float_bits o.confidence)
        ∷ m.std_hash_u64 (m.float_bits o.missing_risk)
        ∷ m.std_hash_u64 (m.float_bits o.abnormal_risk)
        ∷ m.std_hash_u64 (m.float_bits o.inactivity_risk)
        ∷ m.std_hash_u64 o.timestamp
        ∷ []) in
      combine_all before (map (λ c. m.std_hash_u64 (char_to_u64 c)) (until_zero o.reason))

  abbrev pub cell_before : HeatCell m.F → HeatCell m.F → Bool
  cell_before a b = if eq_ℤ a.x b.x then ltb_ℤ a.y b.y else ltb_ℤ a.x b.x

  -- SpatialFrame::hash. The pairs of `action_scores` are in the order of their keys as they are.
  unfoldable pub hash : SpatialFrame m.D m.F → ℕ
  hash f =
      let meta : ℕ = combine_all 0 (m.std_hash_i64 f.timestamp ∷ m.std_hash_u64 f.frame_id ∷ []) in
      let assets : ℕ =
        hash_all hash_asset meta (sort_by (λ a b. ltb_ℤ a.asset_id b.asset_id) f.assets) in
      let heatmap : ℕ = hash_all hash_cell assets (sort_by cell_before f.heatmap) in
      let congestion : ℕ =
        hash_all hash_zone heatmap (sort_by (λ a b. ltb_ℤ a.id b.id) f.congestion) in
      let decisions : ℕ =
        hash_all hash_decision congestion
          (sort_by (λ a b. ltb_ℤ a.asset_id b.asset_id) f.decisions) in
      let predictions : ℕ =
        hash_all hash_prediction decisions
          (sort_by (λ a b. ltb_ℤ a.asset_id b.asset_id) f.predictions) in
      let overlays : ℕ =
        hash_all hash_overlay predictions (sort_by (λ a b. ltb a.asset_id b.asset_id) f.overlays) in
      hash_combine overlays (m.std_hash_u64 f.decision_hash)
