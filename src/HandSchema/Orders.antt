-- ===== src/HandSchema/Orders.antt =====
-- A change of order and back, for src/rh56_driver/hand_schema.py.
use text.Mathlib.Text.{◌==◌ as str_eq}
use text.Mathlib.TextEquality.{eq_iff}
use text.Mathlib.TextPositions.{eq_refl}
use mathlib.Core.Path.{subst}
use mathlib.Core.Option.{some-injective}
use embodied_hand_lab.Prelude.{
  suc, ◌≡◌, true, false, String, List, [], ◌∷◌, map, some, ok, length, all, All, arith, refl, ap,
  sym, ◌∙◌, Bool-cases, inl, inr,
}
use embodied_hand_lab.HandSchema.{
  canonical_hand_order, contains, distinct, zip_names, lookup, pick, reorder_values,
}
use embodied_hand_lab.HandSchema.Names.{IsOrder, Contains, Contains-all, order_parts}

-- Each name of `ns`, in turn, has the value of `vs` beside it.
abbrev pub Picks : {A : Type 0} → List String → List A → List (String × A) → Type 0
Picks [] [] by_name = Unit
Picks [] (v ∷ vs) by_name = ⊥
Picks (n ∷ ns) [] by_name = ⊥
Picks (n ∷ ns) (v ∷ vs) by_name = (lookup n by_name ≡ some v) × Picks ns vs by_name

module _ {A : Type 0} where
  length-Picks :
      (ns : List String) (vs : List A) (d : List (String × A))
      → Picks ns vs d
      → length vs ≡ length ns
  length-Picks [] [] d h = refl
  length-Picks [] (v ∷ vs) d h = absurd h
  length-Picks (n ∷ ns) [] d h = absurd h
  length-Picks (n ∷ ns) (v ∷ vs) d h = ap suc (length-Picks ns vs d h.1)

  pick-Picks :
      (ns : List String) (vs : List A) (d : List (String × A)) → Picks ns vs d → pick ns d ≡ ok vs
  unfolding pick
  pick-Picks [] [] d h = refl
  pick-Picks [] (v ∷ vs) d h = absurd h
  pick-Picks (n ∷ ns) [] d h = absurd h
  pick-Picks (n ∷ ns) (v ∷ vs) d h = ground (arith, h.0, pick-Picks ns vs d h.1)

  -- A name that is looked up nowhere in `ns` may be added in front.
  Picks-cons :
      (m : String) (w : A) (ns : List String) (vs : List A) (d : List (String × A))
      → contains ns m ≡ false
      → Picks ns vs d
      → Picks ns vs ((m, w) ∷ d)
  unfolding contains lookup
  Picks-cons m w [] [] d c h = tt
  Picks-cons m w [] (v ∷ vs) d c h = h
  Picks-cons m w (n ∷ ns) [] d c h = h
  Picks-cons m w (n ∷ ns) (v ∷ vs) d c h =
      (ground (arith, eq_iff n m, eq_iff m n, h.0), Picks-cons m w ns vs d (ground arith) h.1)

  zip_names-Picks :
      (ns : List String) (vs : List A)
      → distinct ns ≡ true
      → length vs ≡ length ns
      → Picks ns vs (zip_names ns vs)
  unfolding zip_names distinct lookup
  zip_names-Picks [] [] h l = tt
  zip_names-Picks [] (v ∷ vs) h l = absurd (omega arith)
  zip_names-Picks (n ∷ ns) [] h l = absurd (omega arith)
  zip_names-Picks (n ∷ ns) (v ∷ vs) h l = (
    rw (eq_refl n),
    Picks-cons n v ns vs (zip_names ns vs) (ground arith)
        (zip_names-Picks ns vs (ground arith) (omega arith)),
  )

  -- Every name of `ts` is looked up successfully where every one of `ns` is.
  lookup-Picks :
      (n : String) (ns : List String) (vs : List A) (d : List (String × A))
      → Picks ns vs d
      → Contains ns n
      → (v : A) × (lookup n d ≡ some v)
  unfolding contains
  lookup-Picks n [] vs d h c = absurd (ground arith)
  lookup-Picks n (m ∷ ns) [] d h c = absurd h
  lookup-Picks n (m ∷ ns) (v ∷ vs) d h c = elim (Bool-cases (str_eq m n)) [
    | inl e ↦ (v, ap (λ t. lookup t d) (sym ((eq_iff m n).0 e)) ∙ h.0)
    | inr e ↦ lookup-Picks n ns vs d h.1 (ground arith)
  ]

  choose-Picks :
      (ts ns : List String) (vs : List A) (d : List (String × A))
      → Picks ns vs d
      → all (contains ns) ts ≡ true
      → (ws : List A) × Picks ts ws d
  choose-Picks [] ns vs d h c = ([], tt)
  choose-Picks (t ∷ ts) ns vs d h c =
      let (w, e) = lookup-Picks t ns vs d h (ground arith) in
      let (ws, k) = choose-Picks ts ns vs d h (ground arith) in (w ∷ ws, (e, k))

  -- What was picked by `ts` answers each of these names as the dictionary did.
  lookup-zip_names :
      (n : String) (ts : List String) (ws : List A) (d : List (String × A))
      → Picks ts ws d
      → Contains ts n
      → lookup n (zip_names ts ws) ≡ lookup n d
  unfolding contains lookup zip_names
  lookup-zip_names n [] ws d h c = absurd (ground arith)
  lookup-zip_names n (t ∷ ts) [] d h c = absurd h
  lookup-zip_names n (t ∷ ts) (w ∷ ws) d h c = elim (Bool-cases (str_eq t n)) [
    | inl e ↦ rw e (sym h.0 ∙ ap (λ x. lookup x d) ((eq_iff t n).0 e))
    | inr e ↦ rw e (lookup-zip_names n ts ws d h.1 (ground arith))
  ]

  Picks-back :
      (ns ts : List String) (vs ws : List A) (d : List (String × A))
      → Picks ns vs d
      → Picks ts ws d
      → all (contains ts) ns ≡ true
      → Picks ns vs (zip_names ts ws)
  Picks-back [] ts [] ws d h k c = tt
  Picks-back [] ts (v ∷ vs) ws d h k c = h
  Picks-back (n ∷ ns) ts [] ws d h k c = h
  Picks-back (n ∷ ns) ts (v ∷ vs) ws d h k c = (
    lookup-zip_names n ts ws d k (ground arith) ∙ h.0,
    Picks-back ns ts vs ws d h.1 k (ground arith),
  )

  lookup-All :
      (P : A → Type 0) (n : String) (ns : List String) (vs : List A) (w : A)
      → All P vs
      → lookup n (zip_names ns vs) ≡ some w
      → P w
  unfolding zip_names lookup
  lookup-All P n [] vs w h e = absurd (ground arith)
  lookup-All P n (m ∷ ns) [] w h e = absurd (ground arith)
  lookup-All P n (m ∷ ns) (v ∷ vs) w h e = elim (Bool-cases (str_eq m n)) [
    | inl same ↦ subst P (some-injective _ _ (rw same at e)) h.0
    | inr other ↦ lookup-All P n ns vs w h.1 (rw other at e)
  ]

  -- What is picked has any property that all values of the dictionary have.
  pub Picks-All :
      (P : A → Type 0) (ts ns : List String) (ws vs : List A)
      → All P vs
      → Picks ts ws (zip_names ns vs)
      → All P ws
  Picks-All P [] ns [] vs h k = tt
  Picks-All P [] ns (w ∷ ws) vs h k = absurd k
  Picks-All P (t ∷ ts) ns [] vs h k = absurd k
  Picks-All P (t ∷ ts) ns (w ∷ ws) vs h k =
      (lookup-All P t ns vs w h k.0, Picks-All P ts ns ws vs h k.1)

all_trans :
    (s t : List String)
    → all (contains canonical_hand_order) s ≡ true
    → all (contains t) canonical_hand_order ≡ true
    → all (contains t) s ≡ true
all_trans [] t h k = refl
all_trans (n ∷ s) t h k =
    let c = Contains-all (contains t) canonical_hand_order n k (ground arith) in
    let r = all_trans s t (ground arith) k in ground arith

module _ {F : Type 0} (float32 : F → F) where
  map-length : (vs : List F) → length (map float32 vs) ≡ length vs
  map-length [] = refl
  map-length (v ∷ vs) = ap suc (map-length vs)

  map-fixed : (vs : List F) → All (λ v. float32 v ≡ v) vs → map float32 vs ≡ vs
  map-fixed [] h = refl
  map-fixed (v ∷ vs) h = ground (arith, h.0, map-fixed vs h.1)

  pub All-map : (P : F → Type 0) (vs : List F) → ((v : F) → P (float32 v)) → All P (map float32 vs)
  All-map P [] h = tt
  All-map P (v ∷ vs) h = (h v, All-map P vs h)

  pub reorder_steps :
      (values : List F) (s t : List String) (ws : List F)
      → IsOrder s
      → IsOrder t
      → length values ≡ length s
      → Picks t ws (zip_names s (map float32 values))
      → reorder_values float32 values s t ≡ ok ws
  unfolding reorder_values
  reorder_steps values s t ws hs ht l k =
      ground (arith, hs, ht, pick-Picks t ws (zip_names s (map float32 values)) k)

  -- Between valid orders, as many values as names are reordered, each under its name.
  pub reorder-Picks :
      (values : List F) (s t : List String)
      → IsOrder s
      → IsOrder t
      → length values ≡ length s
      → (ws : List F) × (reorder_values float32 values s t ≡ ok ws)
        × Picks t ws (zip_names s (map float32 values))
        × Picks s (map float32 values) (zip_names t ws)
        × (length ws ≡ length t)
  reorder-Picks values s t hs ht l =
      let (ds, s_all, s_only) = order_parts s hs in
      let (dt, t_all, t_only) = order_parts t ht in
      let array = map float32 values in
      let whole = zip_names-Picks s array ds (map-length values ∙ l) in
      let (ws, k) = choose-Picks t s array (zip_names s array) whole (all_trans t s t_only s_all) in
      (
        ws,
        reorder_steps values s t ws hs ht l k,
        k,
        Picks-back s t array ws (zip_names s array) whole k (all_trans s t s_only t_all),
        length-Picks t ws (zip_names s array) k,
      )

  -- If rounding to single precision is idempotent, then between any two valid orders, for as many
  -- values as the order has names, a change of order succeeds, and the change back returns the
  -- values, rounded once.
  pub reorder_round_trip :
      (values : List F) (s t : List String)
      → ((v : F) → float32 (float32 v) ≡ float32 v)
      → IsOrder s
      → IsOrder t
      → length values ≡ length s
      → (ws : List F) × (reorder_values float32 values s t ≡ ok ws)
        × (length ws ≡ length t)
        × (reorder_values float32 ws t s ≡ ok (map float32 values))
  reorder_round_trip values s t idempotent hs ht l =
      let (ws, e, k, back, size) = reorder-Picks values s t hs ht l in
      let fixed =
        Picks-All (λ w. float32 w ≡ w) t s ws (map float32 values)
          (All-map (λ w. float32 w ≡ w) values idempotent) k in
      (
        ws,
        e,
        size,
        reorder_steps ws t s (map float32 values) ht hs size (rw (map-fixed ws fixed) back),
      )
