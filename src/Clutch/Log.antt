-- ===== src/Clutch/Log.antt =====
-- Transition logs, which both clutch machines of src/motion_input/clutch.py keep.
use text.Mathlib.Text.{◌==◌ as str_eq}
use embodied_hand_lab.Prelude.{
  ℕ, ◌+◌, ◌≡◌, String, List, [], ◌∷◌, ◌++◌, arith, refl, sym, ◌∙◌, if◌then◌else◌,
}
use embodied_hand_lab.Clutch.{ClutchTransition}

-- Each entry starts where the one before it ended, the first at `a` and the last ending at `b`.
abbrev pub Linked : String → List ClutchTransition → String → Type 0
Linked a [] b = a ≡ b
Linked a (t ∷ ts) b = (t.previous ≡ a) × Linked t.current ts b

-- How often the log enters a state.
abbrev pub entries : String → List ClutchTransition → ℕ
entries s [] = 0
entries s (t ∷ ts) = (if str_eq t.current s then 1 else 0) + entries s ts

pub Linked-append :
    (a b : String) (ts : List ClutchTransition) (t : ClutchTransition)
    → Linked a ts b
    → t.previous ≡ b
    → Linked a (ts ++ t ∷ []) t.current
Linked-append a b [] t h p = (p ∙ sym h, refl)
Linked-append a b (s ∷ ts) t h p = (h.0, Linked-append s.current b ts t h.1 p)

pub entries-append :
    (s : String) (ts : List ClutchTransition) (t : ClutchTransition)
    → entries s (ts ++ t ∷ []) ≡ entries s ts + (if str_eq t.current s then 1 else 0)
entries-append s [] t = omega arith
entries-append s (u ∷ ts) t = omega (arith, entries-append s ts t)
