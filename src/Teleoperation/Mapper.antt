-- ===== src/Teleoperation/Mapper.antt =====
-- `RelativePoseMapper` of src/teleoperation/transforms/frame_mapping.py: the pair of anchors that a
-- clutch sets and clears. What numpy computes from poses is a parameter, `PoseOps`.
use embodied_hand_lab.Prelude.{
  ℕ, ◌+◌, Bool, Option, none, some, Result, ok, err, is_none, not, ◌&&◌,
}

-- The arithmetic on poses: `CentralFrameMapping.source_pose_to_operator`, and the target that
-- `map_operator` computes from the two anchors and the present pose.
pub record PoseOps (P : Type 0) : Type 0 where
  pub to_operator : P → P
  pub follow : P → P → P → P

pub data Error : Type 0 where
  no_anchor : Error

pub record RelativePoseMapper (P : Type 0) : Type 0 where
  pub source_anchor : Option P
  pub robot_anchor : Option P
  pub anchor_id : ℕ

abbrev pub fresh_mapper : (P : Type 0) → RelativePoseMapper P
fresh_mapper P = record { source_anchor = none; robot_anchor = none; anchor_id = 0 }

module _ {P : Type 0} where
  -- `anchored`
  abbrev pub is_anchored : RelativePoseMapper P → Bool
  is_anchored m = not (is_none m.source_anchor) && not (is_none m.robot_anchor)

  unfoldable pub clear : RelativePoseMapper P → RelativePoseMapper P
  clear m = record m { source_anchor = none; robot_anchor = none }

  -- `anchor_operator`; the number that it returns is the new `anchor_id`.
  unfoldable pub anchor_operator : RelativePoseMapper P → P → P → RelativePoseMapper P
  anchor_operator m operator_pose robot_tcp_pose = record {
    source_anchor = some operator_pose;
    robot_anchor = some robot_tcp_pose;
    anchor_id = m.anchor_id + 1;
  }

module _ {P : Type 0} (ops : PoseOps P) where
  -- `anchor`
  unfoldable pub anchor_source : RelativePoseMapper P → P → P → RelativePoseMapper P
  unfolding anchor_operator
  anchor_source m source_pose robot_tcp_pose =
      anchor_operator m (ops.to_operator source_pose) robot_tcp_pose

  -- `map_operator`, with its RuntimeError
  unfoldable pub follow_anchors : Option P → Option P → P → Result Error P
  follow_anchors (some source) (some robot) current = ok (ops.follow source robot current)
  follow_anchors _ _ current = err no_anchor

  unfoldable pub map_operator : RelativePoseMapper P → P → Result Error P
  unfolding follow_anchors
  map_operator m current = follow_anchors m.source_anchor m.robot_anchor current

  -- `map`
  unfoldable pub map_source : RelativePoseMapper P → P → Result Error P
  unfolding map_operator
  map_source m source_pose = map_operator m (ops.to_operator source_pose)
