-- ===== src/Replay/Player/Copies.antt =====
-- How server/runtime/spatial_frame_recorder.cpp and spatial_frame_player.cpp copy a frame into a message
-- and back.
use rfidsystem.Prelude.{
  ◌≡◌, refl, sym, ap, ◌∙◌, false, List, [], ◌∷◌, ◌++◌, map, arith, any, All, append_assoc,
  append_nil,
}
use rfidsystem.Replay.Bytes.{Bytes}
use rfidsystem.Replay.SpatialFrame.{Machine, AssetPosition, SpatialFrame, cleared}
use rfidsystem.Replay.Recorder.{
  put_scores, asset_to_proto, cell_to_proto, zone_to_proto, decision_to_proto, prediction_to_proto,
  to_proto,
}
use rfidsystem.Replay.Player.{chars_eq, set_score, set_scores, asset_from_proto, from_proto}

-- Each key is new where it stands, as in a map.
abbrev pub HasNewKeys : {D : Type 0} → List (Bytes × D) → List (Bytes × D) → Type 0
HasNewKeys before [] = Unit
HasNewKeys before ((k, s) ∷ rest) =
    (any (λ q. chars_eq q.0 k) before ≡ false) × HasNewKeys (before ++ ((k, s) ∷ [])) rest

set_score-new :
    {D : Type 0} (k : Bytes) (s : D) (before : List (Bytes × D))
    → any (λ q. chars_eq q.0 k) before ≡ false
    → set_score k s before ≡ before ++ ((k, s) ∷ [])
unfolding set_score
set_score-new k s [] h = refl
set_score-new k s ((l, t) ∷ rest) h = ground (arith, set_score-new k s rest)

set_scores-new :
    {D : Type 0} (before scores : List (Bytes × D))
    → HasNewKeys before scores
    → set_scores before scores ≡ before ++ scores
unfolding set_scores
set_scores-new before [] h = sym (append_nil before)
set_scores-new before ((k, s) ∷ rest) h =
    rw (set_score-new k s before h.0)
      (set_scores-new (before ++ ((k, s) ∷ [])) rest h.1 ∙ append_assoc before ((k, s) ∷ []) rest)

put_scores_same : {D : Type 0} (scores : List (Bytes × D)) → put_scores scores ≡ scores
unfolding put_scores
put_scores_same [] = refl
put_scores_same ((k, s) ∷ rest) = ap (λ xs. (k, s) ∷ xs) (put_scores_same rest)

abbrev pub IsMap : {D F : Type 0} → AssetPosition D F → Type 0
IsMap a = HasNewKeys [] a.action_scores

asset_same :
    {D F : Type 0} (a : AssetPosition D F) → IsMap a → asset_from_proto (asset_to_proto a) ≡ a
unfolding asset_from_proto asset_to_proto
asset_same a h = rw (put_scores_same a.action_scores, set_scores-new [] a.action_scores h) refl

assets_same :
    {D F : Type 0} (assets : List (AssetPosition D F))
    → All IsMap assets
    → map asset_from_proto (map asset_to_proto assets) ≡ assets
assets_same [] h = refl
assets_same (a ∷ rest) h = rw (asset_same a h.0, assets_same rest h.1) refl

copy_same {ℓ} : {A : Type ℓ} (f : A → A) (xs : List A) → ((x : A) → f x ≡ x) → map f (map f xs) ≡ xs
copy_same f [] h = refl
copy_same f (x ∷ xs) h = rw (h x, h x, copy_same f xs h) refl

module _ (m : Machine) where
  -- What of a frame is recorded: the overlays, the decision hash and the budget's times are not.
  abbrev pub recorded : SpatialFrame m.D m.F → SpatialFrame m.D m.F
  recorded f = record f {
    overlays = [];
    decision_hash = 0;
    collect_ms = m.zero_double;
    heatmap_ms = m.zero_double;
    congestion_ms = m.zero_double;
    decision_ms = m.zero_double;
    overlay_ms = m.zero_double;
    upload_ms = m.zero_double;
    render_ms = m.zero_double;
  }

  pub from_proto-to_proto :
      (f : SpatialFrame m.D m.F) → All IsMap f.assets → from_proto m (to_proto m f) ≡ recorded f
  unfolding from_proto to_proto cleared cell_to_proto zone_to_proto decision_to_proto
      prediction_to_proto
  from_proto-to_proto f h =
      rw
        (
          assets_same f.assets h,
          copy_same cell_to_proto f.heatmap (λ c. refl),
          copy_same zone_to_proto f.congestion (λ c. refl),
          copy_same decision_to_proto f.decisions (λ c. refl),
          copy_same prediction_to_proto f.predictions (λ c. refl),
        )
        refl
