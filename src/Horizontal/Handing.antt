-- ===== src/Horizontal/Handing.antt =====
-- One round of `send`: what it hands over, and what it leaves.
use gempba.Base.{
  ℕ, ◌+◌, ◌<◌, ◌≡◌, refl, sym, ◌∙◌, subst, ◌==◌, if◌then◌else◌, Bool, true, false, Bool-cases, ◌&&◌,
  not, List, [], ◌∷◌, ◌++◌, length, Option, none, some, inl, inr, arith,
}
use mathlib.Core.List.{append-nil}
use gempba.Links.Store.{Store, prune}
use gempba.Node.Life.{Node, Effect, is_consumed, set_state, should_branch}
use gempba.Node.WorkStealing.{Env}
use gempba.Horizontal.Roots.{try_correct_root}
use gempba.Horizontal.Sending.{
  Forest, Ending, answered, Way, settle, hand_over, get_root_level_pending_node,
  try_push_root_level_node,
}
use gempba.Horizontal.Submission.{push_current, send}
use gempba.Horizontal.Spine.{Levels, IsHeld, IsHeld-get_root}
use gempba.Horizontal.Parting.{first_parent, parent_apart, prune-IsHeld}
use gempba.Horizontal.Trimming.{skip_idle, try_correct_root-Trimmed}
use gempba.Horizontal.Fixing.{Fixes}
use gempba.Horizontal.Order.{deep_parent, second_child}

module _ {A P : Type 0} (w : Way A P) where
  abbrev effects_of : Option (List (Effect A P)) → List (Effect A P)
  effects_of none = []
  effects_of (some es) = es

  abbrev is_some : Option (List (Effect A P)) → Bool
  is_some none = false
  is_some (some es) = true

  -- What handing the node over does: nothing, if it is not worth it.
  unfoldable pub handing : Node A P → List (Effect A P)
  handing n = let (m, worth) = should_branch n in if worth then effects_of (w.delegate m).1 else []

  -- The node is not consumed, and its delegation raises nothing.
  unfoldable pub is_ready : Node A P → Bool
  is_ready n =
      let (m, worth) = should_branch n in
      not (is_consumed n) && (if worth then is_some (w.delegate m).1 else true)

  unfoldable pub goes : Env → Bool
  goes e = e.locked && not (w.refuses e)

  -- An ending that handed over `es`, and left the other nodes and the links alone.
  abbrev IsHanded : ℕ → Forest A P → List (Effect A P) → Forest A P × Ending → Type 0
  IsHanded i f es (g, ending) =
      (ending ≡ answered true)
      × (g.effects ≡ f.effects ++ es)
      × (g.store ≡ f.store)
      × ((j : ℕ) → (j == i) ≡ false → g.nodes j ≡ f.nodes j)

  settle-IsHanded :
      (i : ℕ) (f : Forest A P) (o : Node A P × Option (List (Effect A P)))
      → is_some o.1 ≡ true
      → IsHanded i f (effects_of o.1) (settle w i f o)
  settle-IsHanded i f (n, none) h = cc
  settle-IsHanded i f (n, some es) h = (refl, refl, refl, λ j e. ground arith)

  hand_over-IsHanded :
      (i : ℕ) (f : Forest A P)
      → is_ready (f.nodes i) ≡ true
      → IsHanded i f (handing (f.nodes i)) (hand_over w i f)
  unfolding hand_over is_ready handing set_state
  hand_over-IsHanded i f h = elim (Bool-cases (should_branch (f.nodes i)).1) [
    | inl worth ↦
        rw worth (settle-IsHanded i f (w.delegate (should_branch (f.nodes i)).0) (ground arith))
    | inr dropped ↦ rw dropped (refl, sym (append-nil f.effects), refl, λ j e. ground arith)
  ]

  is_ready-consumed : (n : Node A P) → is_ready n ≡ true → is_consumed n ≡ false
  unfolding is_ready
  is_ready-consumed n h = ground arith

  module _ (fuel p : ℕ) (f : Forest A P) where
    pub push_nothing :
        get_root_level_pending_node p f.store ≡ (none, f.store)
        → try_push_root_level_node fuel w p f ≡ (f, answered false)
    unfolding try_push_root_level_node
    push_nothing e = rw (e, try_push_root_level_node) refl

    push_found :
        (c : ℕ) (s t : Store)
        → get_root_level_pending_node p f.store ≡ (some c, s)
        → is_ready (f.nodes c) ≡ true
        → try_correct_root fuel p s ≡ some t
        → try_push_root_level_node fuel w p f ≡ hand_over w c (record f { store = t })
    unfolding try_push_root_level_node
    push_found c s t e ready fine =
        rw (e, try_push_root_level_node, is_ready-consumed (f.nodes c) ready, e, fine) refl

    pub push_own :
        Fixes fuel p f.store
        → is_ready (f.nodes p) ≡ true
        → ((push_current fuel w p f).0.effects ≡ f.effects ++ handing (f.nodes p))
          × ((push_current fuel w p f).1 ≡ answered true)
    unfolding push_current
    push_own (s, fine) ready =
        let over = hand_over-IsHanded p (record f { store = s }) ready in
        rw (is_ready-consumed (f.nodes p) ready, fine) (over.1, over.0)

    module _ (e : Env) (es : List Env) where
      pub send_refused :
          goes e ≡ false
          → ((send fuel w (e ∷ es) p f).0.effects ≡ f.effects)
            × ((send fuel w (e ∷ es) p f).1 ≡ answered false)
      unfolding send goes
      send_refused h = ground arith

      pub send_own :
          goes e ≡ true
          → try_push_root_level_node fuel w p f ≡ (f, answered false)
          → send fuel w (e ∷ es) p f ≡ push_current fuel w p f
      unfolding send goes
      send_own h t = ground arith

      pub send_on :
          (g : Forest A P)
          → goes e ≡ true
          → try_push_root_level_node fuel w p f ≡ (g, answered true)
          → send fuel w (e ∷ es) p f ≡ send fuel w es p g
      unfolding send goes
      send_on g h t = ground arith

  module _ (fuel t p r n c : ℕ) (cs : List ℕ) (m : ℕ) (ahead : List ℕ) (levels : Levels)
      (f : Forest A P) where
    -- A round that finds a pending node on the root's level: it is handed over, and the levels are trimmed.
    pub pending_round :
        length levels + 2 < fuel
        → IsHeld t p r ((n, c ∷ cs) ∷ (m, ahead) ∷ levels) f.store
        → is_ready (f.nodes c) ≡ true
        → (g : Forest A P) × (try_push_root_level_node fuel w p f ≡ (g, answered true))
          × (g.effects ≡ f.effects ++ handing (f.nodes c))
          × ((j : ℕ) → (j == c) ≡ false → g.nodes j ≡ f.nodes j)
          × IsHeld t p
              (skip_idle r ((n, cs) ∷ (m, ahead) ∷ levels)).0
              (skip_idle r ((n, cs) ∷ (m, ahead) ∷ levels)).1
              g.store
    pending_round enough held ready =
        let (q, up, (u, upper)) =
          deep_parent t p n m ahead levels f.store held.linked
            (r, first_parent t p r n c cs ((m, ahead) ∷ levels) f.store held) held.path.3 in
        let apart : (q == r) ≡ false =
          parent_apart t p r n c cs ((m, ahead) ∷ levels) f.store held q u upper in
        let found = second_child p r f.store q n c cs up (IsHeld-get_root held) apart held.path.1 in
        let (s, fine, trimmed) =
          try_correct_root-Trimmed t p fuel r n cs ((m, ahead) ∷ levels) (prune c f.store)
            (omega arith) (prune-IsHeld t p r n c cs ((m, ahead) ∷ levels) f.store held) in
        let over = hand_over-IsHanded c (record f { store = s }) ready in
        (
          (hand_over w c (record f { store = s })).0,
          push_found fuel p f c (prune c f.store) s found ready fine
              ∙ (λ i. ((hand_over w c (record f { store = s })).0, over.0 i)),
          over.1,
          over.3,
          subst
              (IsHeld t p (skip_idle r ((n, cs) ∷ (m, ahead) ∷ levels)).0
                (skip_idle r ((n, cs) ∷ (m, ahead) ∷ levels)).1)
              (sym over.2) trimmed,
        )
