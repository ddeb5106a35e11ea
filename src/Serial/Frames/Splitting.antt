-- ===== src/Serial/Frames/Splitting.antt =====
-- How `_split_frames` of src/rh56_driver/serial_backend.py finds frames in what has been received.
use mathlib.Core.Path.{ap₂}
use native.Mathlib.Decide.{dec_lt}
use embodied_hand_lab.Prelude.{
  get_or, get_or-append, get_or-take, length-take, ◌⊎◌, map, ℕ, zero, suc, ◌+◌, ◌≤◌, ◌<◌, ◌≡◌, ◌≢◌,
  ◌++◌, true, false, List, [], ◌∷◌, ltb, arith, length, All, refl, ap, take, drop, ◌∙◌, sym,
  length-append, length-drop, take-append, drop-append, Bool-cases, ltb→lt, inl, inr,
}
use embodied_hand_lab.Serial.Frames.{has_header, total_len, split, split_frames}

-- More fuel than the length of the buffer changes nothing.
pub split_fuel :
    (f g : ℕ) (rest : List ℕ) → length rest ≤ f → length rest ≤ g → split f rest ≡ split g rest
unfolding split
split_fuel zero zero rest h k = refl
split_fuel zero (suc g) rest h k = ground arith
split_fuel (suc f) zero rest h k = ground arith
split_fuel (suc f) (suc g) [] h k = refl
split_fuel (suc f) (suc g) (b ∷ rest) h k =
    let t = total_len (b ∷ rest) in
    ground (
      arith,
      split_fuel f g rest (omega arith) (omega arith),
      split_fuel f g (drop t (b ∷ rest)) (omega (arith, length-drop t (b ∷ rest)))
          (omega (arith, length-drop t (b ∷ rest))),
    )

-- A frame of the device: the header, and as many bytes as its fourth byte announces.
pub record IsFrame (frame : List ℕ) : Type 0 where
  pub first : get_or frame 0 0 ≡ 0x90
  pub second : get_or frame 1 0 ≡ 0xEB
  pub complete : length frame ≡ get_or frame 3 0 + 5

pub split_step :
    (fuel : ℕ) (rest : List ℕ)
    → 5 ≤ length rest
    → has_header rest ≡ true
    → total_len rest ≤ length rest
    → split (suc fuel) rest ≡ take (total_len rest) rest ∷ split fuel (drop (total_len rest) rest)
unfolding split
split_step fuel rest long h fits = ground arith

pub split_skip :
    (fuel : ℕ) (rest : List ℕ)
    → 5 ≤ length rest
    → has_header rest ≡ false
    → split (suc fuel) rest ≡ split fuel (drop 1 rest)
unfolding split
split_skip fuel rest long h = ground arith

pub split_end :
    (fuel : ℕ) (rest : List ℕ)
    → (length rest < 5) ⊎ ((has_header rest ≡ true) × (length rest < total_len rest))
    → split fuel rest ≡ []
unfolding split
split_end zero rest h = refl
split_end (suc fuel) rest h = ground arith

pub split_frames_lem : (rest : List ℕ) → split (length rest) rest ≡ split_frames rest
unfolding split_frames
split_frames_lem rest = refl

split_short : (rest : List ℕ) → length rest < 5 → split_frames rest ≡ []
unfolding split_frames
split_short rest h = split_end (length rest) rest (inl h)

pub split_more : (rest : List ℕ) → split_frames rest ≡ split (suc (length rest)) rest
unfolding split_frames
split_more rest = split_fuel (length rest) (suc (length rest)) rest (omega arith) (omega arith)

frame_header : (frame rest : List ℕ) → IsFrame frame → has_header (frame ++ rest) ≡ true
frame_header frame rest h =
    ground (arith, get_or-append frame rest 0 0, get_or-append frame rest 1 0)

frame_total : (frame rest : List ℕ) → IsFrame frame → total_len (frame ++ rest) ≡ length frame
frame_total frame rest h = ground (arith, get_or-append frame rest 3 0)

-- One frame at the front of the buffer.
pub split-frame :
    (frame rest : List ℕ) → IsFrame frame → split_frames (frame ++ rest) ≡ frame ∷ split_frames rest
split-frame frame rest h =
    split_more buffer
    ∙ split_step (length buffer) buffer (omega (arith, h.complete, long))
        (frame_header frame rest h) (omega (arith, total, long))
    ∙ ap (λ n. take n buffer ∷ split (length buffer) (drop n buffer)) total
    ∙ ap₂ (λ t r. t ∷ split (length buffer) r) (take-append frame rest) (drop-append frame rest)
    ∙ ap (λ t. frame ∷ t)
        (split_fuel (length buffer) (length rest) rest (omega (arith, long)) (omega arith)
          ∙ split_frames_lem rest)
  where
    buffer : List ℕ
    buffer = frame ++ rest

    total : total_len buffer ≡ length frame
    total = frame_total frame rest h

    long : length buffer ≡ length frame + length rest
    long = length-append frame rest

-- Bytes that no header begins with, in front of a frame.
abbrev pub IsNoise : List ℕ → Type 0
IsNoise noise = All (λ b. b ≢ 0x90) noise

split-noise_byte :
    (b : ℕ) (rest : List ℕ)
    → b ≢ 0x90
    → 4 ≤ length rest
    → split_frames (b ∷ rest) ≡ split_frames rest
split-noise_byte b rest h long =
    split_more (b ∷ rest)
    ∙ split_skip (suc (length rest)) (b ∷ rest) (omega arith) (ground arith)
    ∙ split_fuel (suc (length rest)) (length rest) rest (omega arith) (omega arith)
    ∙ split_frames_lem rest

pub split-noise :
    (noise rest : List ℕ) → IsNoise noise → split_frames (noise ++ rest) ≡ split_frames rest
split-noise [] rest h = refl
split-noise (b ∷ noise) rest h = elim (dec_lt (length (noise ++ rest)) 4) [
  | yes short ↦
      split_short (b ∷ (noise ++ rest)) (omega arith)
      ∙ sym (split_short rest (omega (arith, length-append noise rest)))
  | no long ↦ split-noise_byte b (noise ++ rest) h.0 (omega arith) ∙ split-noise noise rest h.1
]

-- What a port delivers: noise and frames, in turn.
abbrev pub stream : List (List ℕ × List ℕ) → List ℕ → List ℕ
stream [] tail = tail
stream ((noise, frame) ∷ rest) tail = noise ++ (frame ++ stream rest tail)

-- If the noise before each frame has no byte 0x90, the first one of a header, every frame is found, in
-- order, and what comes behind the last one is split as if it stood alone.
pub split_frames-stream :
    (s : List (List ℕ × List ℕ)) (tail : List ℕ)
    → All (λ p. IsNoise p.0 × IsFrame p.1) s
    → split_frames (stream s tail) ≡ map (λ p. p.1) s ++ split_frames tail
split_frames-stream [] tail h = refl
split_frames-stream ((noise, frame) ∷ rest) tail h =
    split-noise noise (frame ++ stream rest tail) h.0.0
    ∙ split-frame frame (stream rest tail) h.0.1
    ∙ ap (λ t. frame ∷ t) (split_frames-stream rest tail h.1)

IsFrame-take :
    (rest : List ℕ)
    → 5 ≤ length rest
    → has_header rest ≡ true
    → total_len rest ≤ length rest
    → IsFrame (take (total_len rest) rest)
IsFrame-take rest long h fits =
    let n = total_len rest in
    let e0 = get_or-take n rest 0 0 (omega arith) in
    let e1 = get_or-take n rest 1 0 (omega arith) in
    record {
      first = e0 ∙ ground arith;
      second = e1 ∙ ground arith;
      complete = omega (arith, length-take n rest, get_or-take n rest 3 0 (omega arith));
    }

split-IsFrame : (fuel : ℕ) (rest : List ℕ) → All IsFrame (split fuel rest)
split-IsFrame zero rest = unfold split in tt
split-IsFrame (suc fuel) rest = elim (Bool-cases (ltb (length rest) 5)) [
  | inl short ↦ rw (split_end (suc fuel) rest (inl (ltb→lt _ _ short))) tt
  | inr long ↦ elim (Bool-cases (has_header rest)) [
    | inr e ↦ rw (split_skip fuel rest (ground arith) e) (split-IsFrame fuel (drop 1 rest))
    | inl e ↦ elim (Bool-cases (ltb (length rest) (total_len rest))) [
      | inl cut ↦ rw (split_end (suc fuel) rest (inr (e, ltb→lt _ _ cut))) tt
      | inr fits ↦ rw (split_step fuel rest (ground arith) e (ground arith)) (
        IsFrame-take rest (ground arith) e (ground arith),
        split-IsFrame fuel (drop (total_len rest) rest),
      )
    ]
  ]
]

-- Whatever has been received, each frame that is returned begins with the header 90 EB and has
-- exactly the length that its fourth byte announces.
pub split_frames-IsFrame : (buffer : List ℕ) → All IsFrame (split_frames buffer)
unfolding split_frames
split_frames-IsFrame buffer = split-IsFrame (length buffer) buffer
