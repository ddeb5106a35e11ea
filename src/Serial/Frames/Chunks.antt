-- ===== src/Serial/Frames/Chunks.antt =====
-- The frames that `_split_frames` of src/rh56_driver/serial_backend.py finds in a buffer stay when
-- more bytes arrive.
use mathlib.Core.Path.{ap₂}
use native.Mathlib.Nat.{le_refl}
use embodied_hand_lab.Prelude.{
  ℕ, zero, suc, ◌+◌, ◌≤◌, ◌≡◌, ◌++◌, true, false, List, ◌∷◌, ltb, arith, length, refl, ap, take,
  drop, ◌∙◌, length-append, length-drop, take-append_le, drop-append_le, get_or-append, Bool-cases,
  inl, inr, ltb→lt, ltb-false,
}
use embodied_hand_lab.Serial.Frames.{has_header, total_len, split, split_frames}
use embodied_hand_lab.Serial.Frames.Splitting.{
  split_step, split_skip, split_end, split_more, split_fuel, split_frames_lem,
}

-- `split_frames` itself takes the steps of `split`.
split_frames_step :
    (rest : List ℕ)
    → 5 ≤ length rest
    → has_header rest ≡ true
    → total_len rest ≤ length rest
    → split_frames rest ≡ take (total_len rest) rest ∷ split_frames (drop (total_len rest) rest)
split_frames_step rest long h fits =
    let n = total_len rest in
    split_more rest
    ∙ split_step (length rest) rest long h fits
    ∙ ap (λ t. take n rest ∷ t)
        (split_fuel (length rest) (length (drop n rest)) (drop n rest)
            (omega (arith, length-drop n rest)) (le_refl _)
          ∙ split_frames_lem (drop n rest))

split_frames_skip :
    (rest : List ℕ)
    → 5 ≤ length rest
    → has_header rest ≡ false
    → split_frames rest ≡ split_frames (drop 1 rest)
split_frames_skip rest long h =
    split_more rest
    ∙ split_skip (length rest) rest long h
    ∙ split_fuel (length rest) (length (drop 1 rest)) (drop 1 rest)
        (omega (arith, length-drop 1 rest)) (le_refl _)
    ∙ split_frames_lem (drop 1 rest)

has_header-append : (a b : List ℕ) → 5 ≤ length a → has_header (a ++ b) ≡ has_header a
has_header-append a b h = ground (arith, get_or-append a b 0 0, get_or-append a b 1 0)

total_len-append : (a b : List ℕ) → 5 ≤ length a → total_len (a ++ b) ≡ total_len a
total_len-append a b h = ground (arith, get_or-append a b 3 0)

-- `xs` begins with `ys`.
abbrev pub Begins : List (List ℕ) → List (List ℕ) → Type 0
Begins xs ys = (more : List (List ℕ)) × (xs ≡ ys ++ more)

whole_frame :
    (fuel : ℕ) (a b : List ℕ)
    → 5 ≤ length a
    → has_header a ≡ true
    → total_len a ≤ length a
    → Begins (split_frames (drop (total_len a) a ++ b)) (split fuel (drop (total_len a) a))
    → Begins (split_frames (a ++ b)) (split (suc fuel) a)
whole_frame fuel a b long e fits (more, eq) = rw (split_step fuel a long e fits) (
  more,
  split_frames_step (a ++ b) (omega (arith, size)) (has_header-append a b long ∙ e)
        (omega (arith, size, total))
      ∙ ap (λ k. take k (a ++ b) ∷ split_frames (drop k (a ++ b))) total
      ∙ ap₂ (λ t r. t ∷ split_frames r) (take-append_le n a b fits) (drop-append_le n a b fits)
      ∙ ap (λ t. take n a ∷ t) eq,
)
  where
    n : ℕ
    n = total_len a

    size : length (a ++ b) ≡ length a + length b
    size = length-append a b

    total : total_len (a ++ b) ≡ n
    total = total_len-append a b long

split-Begins :
    (fuel : ℕ) (a b : List ℕ) → length a ≤ fuel → Begins (split_frames (a ++ b)) (split fuel a)
split-Begins zero a b h = (split_frames (a ++ b), unfold split in refl)
split-Begins (suc fuel) a b h = elim (Bool-cases (ltb (length a) 5)) [
  | inl short ↦ rw (split_end (suc fuel) a (inl (ltb→lt _ _ short))) (split_frames (a ++ b), refl)
  | inr long ↦ elim (Bool-cases (has_header a)) [
    | inr e ↦
        let (more, eq) = split-Begins fuel (drop 1 a) b (omega (arith, length-drop 1 a)) in
        rw (split_skip fuel a (ground arith) e) (
          more,
          split_frames_skip (a ++ b) (omega (arith, length-append a b, ltb-false _ _ long))
                (has_header-append a b (ground arith) ∙ e)
              ∙ ap split_frames (drop-append_le 1 a b (ground arith))
              ∙ eq,
        )
    | inl e ↦ elim (Bool-cases (ltb (length a) (total_len a))) [
      | inl cut ↦
          rw (split_end (suc fuel) a (inr (e, ltb→lt _ _ cut))) (split_frames (a ++ b), refl)
      | inr fits ↦ whole_frame fuel a b (ltb-false _ _ long) e (ltb-false _ _ fits) (
          split-Begins fuel (drop (total_len a) a) b
            (omega (arith, length-drop (total_len a) a, ltb-false _ _ long)))
    ]
  ]
]

-- However much arrives behind it, the frames found in a buffer are the first ones found later.
pub split_frames-Begins : (a b : List ℕ) → Begins (split_frames (a ++ b)) (split_frames a)
split_frames-Begins a b = rw (← split_frames_lem a) (split-Begins (length a) a b (le_refl _))
